-- ===== src/Worker/Attempts.antt =====
-- What becomes of a job's attempts.
use wedding_saas.Worker.Idempotency.{
  done, release, mark_processed, is_done, in_work, lease_seconds, completed_seconds, claim, Mark,
}
use wedding_saas.Base.{
  inr, ltb, inl, Bool-cases, ◌⊎◌, if◌then◌else◌, arith, ◌∙◌, ◌≤◌, refl, true, some, none, ◌≡◌, ◌+◌,
  ℕ,
}
use wedding_saas.Worker.StringKey.{StringKey}
use mathlib.Core.Path.{subst, sym, ap}
use wedding_saas.Worker.Runner.{
  skipped_in_progress, skipped, handled, dies, throws, skipped_already_processed, returns, died,
  success, RunResult, Handling, run,
}

-- What a handler leaves of the run's result.
abbrev pub result_of : Handling → RunResult
result_of returns = success
result_of throws = RunResult.failed
result_of dies = died

-- What the next run of a job answers after a run that found its key free: a day long after a success
-- it skips, and after the death of the process it skips while the lease lasts.
abbrev pub next_result : Handling → Handling → ℕ → ℕ → ℕ → RunResult
next_result returns next begun ended now =
    if ltb now (ended + completed_seconds) then skipped_already_processed else result_of next
next_result throws next begun ended now = result_of next
next_result dies next begun ended now =
    if ltb now (begun + lease_seconds) then skipped_in_progress else result_of next

module _ (redis : StringKey Mark) where
  free_run :
      (handling : Handling) (now ended : ℕ) (s : redis.S)
      → redis.get now s ≡ none
      → run redis true handling now ended s
        ≡ handled redis true handling ended (redis.set in_work lease_seconds now s)
  unfolding run claim
  free_run handling now ended s free = rw (redis.set_nx-free in_work lease_seconds now s free) refl

  held_run :
      (mark : Mark) (handling : Handling) (now ended : ℕ) (s : redis.S)
      → redis.get now s ≡ some mark
      → run redis true handling now ended s ≡ (skipped (is_done (some mark)), s)
  unfolding run claim
  held_run mark handling now ended s held =
      rw (redis.set_nx-held in_work mark lease_seconds now s held) (rw held refl)

  free_result :
      (handling : Handling) (now ended : ℕ) (s : redis.S)
      → redis.get now s ≡ none
      → (run redis true handling now ended s).0 ≡ result_of handling
  free_result returns now ended s free = ap (λ p. p.0) (free_run returns now ended s free)
  free_result throws now ended s free = ap (λ p. p.0) (free_run throws now ended s free)
  free_result dies now ended s free = ap (λ p. p.0) (free_run dies now ended s free)

  after_mark :
      (mark : Mark) (next : Handling) (ttl since now until : ℕ) (s : redis.S)
      → since ≤ now
      → (run redis true next now until (redis.set mark ttl since s)).0
        ≡ (if ltb now (since + ttl) then skipped (is_done (some mark)) else result_of next)
  after_mark mark next ttl since now until s le = elim (Bool-cases (ltb now (since + ttl))) [
    | inl within ↦ rw within (
        ap (λ p. p.0)
          (held_run mark next now until (redis.set mark ttl since s)
            (redis.get-set mark ttl since now s le ∙ rw within refl)))
    | inr late ↦ rw late (
        free_result next now until (redis.set mark ttl since s)
          (redis.get-set mark ttl since now s le ∙ rw late refl))
  ]

  after_release :
      (next : Handling) (ended now until : ℕ) (s : redis.S)
      → (redis.get ended s ≡ none) ⊎ (redis.get ended s ≡ some in_work)
      → ended ≤ now
      → (run redis true next now until (release redis ended s ended s)).0 ≡ result_of next
  unfolding release
  after_release next ended now until s (inl free) le =
      rw free (free_result next now until s (redis.get-later ended now s free le))
  after_release next ended now until s (inr mine) le =
      rw mine (free_result next now until (redis.del ended s) (redis.get-del ended now s le))

  own_key :
      (begun ended : ℕ) (s : redis.S)
      → begun ≤ ended
      → (let s' = redis.set in_work lease_seconds begun s in
          (redis.get ended s' ≡ none) ⊎ (redis.get ended s' ≡ some in_work))
  own_key begun ended s le = elim (Bool-cases (ltb ended (begun + lease_seconds))) [
    | inl within ↦ inr (redis.get-set in_work lease_seconds begun ended s le ∙ rw within refl)
    | inr late ↦ inl (redis.get-set in_work lease_seconds begun ended s le ∙ rw late refl)
  ]

  after_run :
      (first next : Handling) (begun ended now until : ℕ) (s : redis.S)
      → begun ≤ ended
      → ended ≤ now
      → (run redis true next now until
          (handled redis true first ended (redis.set in_work lease_seconds begun s)).1).0
        ≡ next_result first next begun ended now
  unfolding mark_processed
  after_run returns next begun ended now until s le le' =
      after_mark done next completed_seconds ended now until
        (redis.set in_work lease_seconds begun s) le'
  after_run throws next begun ended now until s le le' =
      after_release next ended now until (redis.set in_work lease_seconds begun s)
        (own_key begun ended s le) le'
  after_run dies next begun ended now until s le le' =
      after_mark in_work next lease_seconds begun now until s (omega (arith, le, le'))

  -- Of two runs of a job, one after the other and with no other worker between them, where the first
  -- finds the key free: a day long after a success the second is skipped as processed; after a failure
  -- it handles the job; and after the death of the process it is skipped, and ends without an error,
  -- as long as the lease lasts, and from then on handles the job.
  pub run-next_result :
      (first next : Handling) (begun ended now until : ℕ) (s : redis.S)
      → redis.get begun s ≡ none
      → begun ≤ ended
      → ended ≤ now
      → (run redis true next now until (run redis true first begun ended s).1).0
        ≡ next_result first next begun ended now
  run-next_result first next begun ended now until s free le le' =
      subst (λ p. (run redis true next now until p.1).0 ≡ next_result first next begun ended now)
        (sym (free_run first begun ended s free))
        (after_run first next begun ended now until s le le')
