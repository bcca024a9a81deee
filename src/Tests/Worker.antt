-- ===== src/Tests/Worker.antt =====
-- A key as an optional value with its end; a job that is attempted thrice; and two instances that
-- tick.
use wedding_saas.Worker.Attempts.{run-next_result}
use wedding_saas.Worker.Runner.{skipped_in_progress, dies, returns, run}
use wedding_saas.Worker.Leader.{acquire_or_renew, unreached, tick, answered}
use wedding_saas.Worker.OneLeader.{takes_over, one_leader, ticks, idle, ElectionEvent, after_all}
use wedding_saas.Worker.Idempotency.{release, claim, Mark}
use wedding_saas.Worker.OneLeader
use wedding_saas.Base.{
  inr, inl, ◌==◌, Bool-cases, ◌∷◌, [], refl, List, arith, ◌+◌, ltb, ◌≤◌, none, if◌then◌else◌, ◌≡◌,
  some, Option, Bool, ℕ, true, false,
}
use wedding_saas.Worker.StringKey.{StringKey}

abbrev Entry : Type 0 → Type 0
Entry V = Option (V × ℕ)

module _ {V : Type 0} where
  abbrev read : ℕ → Entry V → Option V
  read now none = none
  read now (some (v, end_)) = if ltb now end_ then some v else none

  abbrev prolong : ℕ → ℕ → Entry V → Entry V
  prolong ttl now none = none
  prolong ttl now (some (v, end_)) = if ltb now end_ then some (v, now + ttl) else none

  abbrev write_new : V → ℕ → ℕ → Entry V → Bool × Entry V
  write_new v ttl now s = elim (read now s) [
    | none ↦ (true, some (v, now + ttl))
    | some w ↦ (false, s)
  ]

  prolonged :
      (v : V) (ttl now later : ℕ) (s : Entry V)
      → read now s ≡ some v
      → now ≤ later
      → read later (prolong ttl now s) ≡ (if ltb later (now + ttl) then some v else none)
  prolonged v ttl now later none held le = cc
  prolonged v ttl now later (some (w, end_)) held le = ground arith

  stays_gone : (now later : ℕ) (s : Entry V) → read now s ≡ none → now ≤ later → read later s ≡ none
  stays_gone now later none free le = refl
  stays_gone now later (some (w, end_)) free le = ground arith

  stays_same :
      (v w : V) (now later : ℕ) (s : Entry V)
      → read now s ≡ some v
      → now ≤ later
      → read later s ≡ some w
      → w ≡ v
  stays_same v w now later none held le reading = cc
  stays_same v w now later (some (u, end_)) held le reading = ground arith

  abbrev key : StringKey V
  key = record {
    S = Entry V;
    get = read;
    set = λ v ttl now s. some (v, now + ttl);
    set_nx = write_new;
    expire = prolong;
    del = λ now s. none;
    get-set = λ v ttl now later s le. refl;
    set_nx-free = λ v ttl now s free. rw (free, write_new) refl;
    set_nx-held = λ v w ttl now s held. rw (held, write_new) refl;
    get-expire = prolonged;
    get-del = λ now later s le. refl;
    get-later = stays_gone;
    get-kept = stays_same;
  }

abbrev job_key : StringKey Mark
job_key = key

-- A worker whose lease lapsed releases the claim of the one that took over: a third one wins while
-- the second's lease runs.
stale_release :
    let first = (claim job_key 0 none 0 none).1 in
    let second = (claim job_key 900 first 900 first).1 in
    let left = release job_key 910 second 910 second in
    (claim job_key 920 left 920 left).0.claimed ≡ true
unfolding claim release
stale_release = refl

abbrev lease_key : StringKey ℕ
lease_key = key

abbrev turns : List (ElectionEvent lease_key 30000 × ℕ)
turns =
    (ticks answered 1, 0)
    ∷ (ticks answered 2, 10000)
    ∷ (ticks unreached 1, 10)
    ∷ (ticks answered 2, 30000)
    ∷ []

abbrev second : ℕ
second = 2

one_leader_example : second ≡ second
unfolding after_all OneLeader.happen tick acquire_or_renew OneLeader.end_of
one_leader_example =
    one_leader lease_key 30000 none 1000 turns refl (tt, (tt, (tt, (tt, tt)))) second second 41010
      (omega arith) refl (omega arith) refl (omega arith)

abbrev crashed : List (ElectionEvent lease_key 30000 × ℕ)
crashed = (ticks answered 1, 0) ∷ []

ends_by :
    (other : ℕ)
    → (after_all lease_key 30000 crashed 1000 (idle lease_key 30000 none)).lease_end other ≤ 40000
unfolding after_all OneLeader.happen tick acquire_or_renew
ends_by other = elim (Bool-cases (other == 1)) [
  | inl own ↦ rw own (omega arith)
  | inr another ↦ rw another (omega arith)
]

takes_over_example :
    let (e, calls) =
      tick lease_key 30000 answered 5 40000
        (after_all lease_key 30000 crashed 1000 (idle lease_key 30000 none)) in
    (e.leading 5 ≡ true) × (e.lease_end 5 ≡ 70000)
unfolding OneLeader.end_of
takes_over_example =
    takes_over lease_key 30000 none 1000 crashed 5 40000 refl (tt, tt) (omega arith) ends_by

-- The second attempt of a job whose worker died is skipped, and the queue takes it for done.
run-next_result_example :
    (run job_key true returns 1060 1070 (run job_key true dies 1000 1005 none).1).0
    ≡ skipped_in_progress
run-next_result_example =
    run-next_result job_key dies returns 1000 1005 1060 1070 none refl (omega arith) (omega arith)
