-- ===== src/RateLimit/Sliding.antt =====
-- The window never holds more admitted requests than the limit, wherever it ends.
use wedding_saas.RateLimit.Window.{
  pardon, penalty, time_of, IsOrdered, serve_all, fresh, Call, attempt, serve, in_window,
}
use wedding_saas.RateLimit.Policy.{RateLimitPolicy}
use wedding_saas.Base.{
  ltb→lt, count_if_mono, ap, ◌∙◌, fun_ext, inr, leb→le, count_if_none, sym, inl, leb, [], ◌∷◌, true,
  Bool-cases, ◌&&◌, false, count_if, arith, ◌≡◌, ◌+◌, All, ◌≤◌, ◌<◌, ltb, ◌*◌, List, Bool, ℕ,
}
use wedding_saas.RateLimit.SortedSet.{SortedSet, Member}
use wedding_saas.RateLimit.Limiter.{unblock, block, pttl, check_redis, live_window, State}

-- `limit` set by `ltb now (time + width)`: what the script keeps at `now`.
abbrev pub live_at : ℕ → ℕ → (ℕ → Bool) → ℕ → Bool
live_at width now p time = ltb now (time + width) && p time

live_at_twice :
    (width before now : ℕ) (p : ℕ → Bool)
    → before ≤ now
    → live_at width before (live_at width now p) ≡ live_at width now p
live_at_twice width before now p h = fun_ext (λ time. ground arith)

live_at_fresh :
    (width before now : ℕ) (p : ℕ → Bool)
    → 0 < width
    → before ≤ now
    → live_at width now p now ≡ p now
live_at_fresh width before now p pos h = ground arith

module _ (redis : SortedSet) (policy : RateLimitPolicy) where
  open redis use {count}

  abbrev pub width : ℕ
  width = policy.window_seconds * 1000

  -- What ties the stored window to the requests admitted so far, at the time of the last call.
  pub record Mirrors (now : ℕ) (s : State redis) (admitted : List ℕ) : Type 0 where
    pub counts :
        (later : ℕ) (p : ℕ → Bool)
        → now ≤ later
        → count (live_at width later p) s.window ≡ count_if (live_at width later p) admitted
    pub kept : All (λ time. time + width ≤ s.window_expires) admitted
    pub serials : (m : Member) → redis.has m s.window ≡ true → m.serial ≤ s.counter
    pub past : All (λ time. time ≤ now) admitted
    pub bounded : (end : ℕ) → count_if (in_window width end) admitted ≤ policy.limit

  dead_window :
      (now : ℕ) (s : State redis) (admitted : List ℕ) (later : ℕ) (p : ℕ → Bool)
      → s.window_expires ≤ later
      → All (λ time. time + width ≤ s.window_expires) admitted
      → All (λ time. live_at width later p time ≡ false) admitted
  dead_window now s [] later p h k = tt
  dead_window now s (t ∷ ts) later p h (k, ks) = (ground arith, dead_window now s ts later p h ks)

  -- Whether or not the key has expired, what is live in it are the admitted requests.
  pub live-counts :
      (now : ℕ) (s : State redis) (admitted : List ℕ)
      → Mirrors now s admitted
      → (at later : ℕ) (p : ℕ → Bool) → now ≤ at
      → at ≤ later
      → count (live_at width later p) (live_window redis at s)
        ≡ count_if (live_at width later p) admitted
  live-counts now s admitted m at later p h k = elim (Bool-cases (leb s.window_expires at)) [
    | inl dead ↦
        rw (dead, redis.count-nothing)
          (sym (
            count_if_none _ admitted
              (dead_window now s admitted later p (omega (arith, leb→le _ _ dead, k)) m.kept)))
    | inr alive ↦ rw alive (m.counts later p (omega arith))
  ]

  module _ (now : ℕ) (s : State redis) (admitted : List ℕ) (m : Mirrors now s admitted) (at : ℕ)
      (h : now ≤ at) where
    abbrev pub trimmed : redis.Z
    trimmed = redis.remove_upto at width (live_window redis at s)

    trimmed-counts :
        (later : ℕ) (p : ℕ → Bool)
        → at ≤ later
        → count (live_at width later p) trimmed ≡ count_if (live_at width later p) admitted
    trimmed-counts later p k =
        redis.count-remove_upto (live_at width later p) at width (live_window redis at s)
        ∙ ap (λ q. count q (live_window redis at s)) (live_at_twice width at later p k)
        ∙ live-counts now s admitted m at later p h k

    pub trimmed-card : redis.card trimmed ≡ count_if (live_at width at (λ _. true)) admitted
    trimmed-card =
        redis.card-count trimmed
        ∙ redis.count-remove_upto (λ _. true) at width (live_window redis at s)
        ∙ live-counts now s admitted m at at (λ _. true) h (omega arith)

    live-serials : (n : Member) → redis.has n (live_window redis at s) ≡ true → n.serial ≤ s.counter
    live-serials n e = elim (Bool-cases (leb s.window_expires at)) [
      | inl dead ↦
          let k = redis.has-nothing n in
          let k' : redis.has n redis.nothing ≡ true = rw dead at e in cc
      | inr alive ↦ m.serials n (rw alive at e)
    ]

    trimmed-serials : (n : Member) → redis.has n trimmed ≡ true → n.serial ≤ s.counter
    trimmed-serials n e =
        live-serials n (redis.has-remove_upto n at width (live_window redis at s) e)

    abbrev member : Member
    member = record { time = at; serial = s.counter + 1 }

    member_new : redis.has member trimmed ≡ false
    member_new = elim (Bool-cases (redis.has member trimmed)) [
      | inl there ↦ absurd (omega (arith, trimmed-serials member there))
      | inr new ↦ new
    ]

    times_at : (ts : List ℕ) → All (λ t. t ≤ now) ts → All (λ t. t ≤ at) ts
    times_at [] k = tt
    times_at (t ∷ ts) (k, ks) = (omega arith, times_at ts ks)

    times_kept : (ts : List ℕ) → All (λ t. t ≤ now) ts → All (λ t. t + width ≤ at + width) ts
    times_kept [] k = tt
    times_kept (t ∷ ts) (k, ks) = (omega arith, times_kept ts ks)

    pub Mirrors-later : Mirrors at s admitted
    Mirrors-later = record {
      counts = λ later p k. m.counts later p (omega arith);
      kept = m.kept;
      serials = m.serials;
      past = times_at admitted m.past;
      bounded = m.bounded;
    }

    abbrev pub next : redis.Z → State redis
    next z = record s { window = z; window_expires = at + width; counter = s.counter + 1 }

    Mirrors-trimmed : Mirrors at (next trimmed) admitted
    Mirrors-trimmed = record {
      counts = trimmed-counts;
      kept = times_kept admitted m.past;
      serials = λ n e. omega (arith, trimmed-serials n e);
      past = times_at admitted m.past;
      bounded = m.bounded;
    }

    bounded_added :
        redis.card trimmed < policy.limit
        → (end : ℕ) → count_if (in_window width end) (at ∷ admitted) ≤ policy.limit
    bounded_added room end = elim (Bool-cases (leb at end)) [
      | inl after ↦ ground (
        arith,
        count_if_mono (in_window width end) (live_at width at (λ _. true)) (λ t e. ground arith)
            admitted,
        trimmed-card,
        m.bounded end,
      )
      | inr before ↦ ground (arith, m.bounded end)
    ]

    Mirrors-added :
        redis.card trimmed < policy.limit
        → Mirrors at (next (redis.add at member trimmed)) (at ∷ admitted)
    Mirrors-added room = record {
      counts = λ later p k. ground (
        arith,
        redis.count-add (live_at width later p) at member trimmed member_new,
        trimmed-counts later p k,
      );
      kept = (omega arith, times_kept admitted m.past);
      serials = λ n e. elim (redis.has-add n member at trimmed e) [
        | inl same ↦ omega arith
        | inr old ↦ omega (arith, trimmed-serials n old)
      ];
      past = (omega arith, times_at admitted m.past);
      bounded = bounded_added room;
    }

  attempt-Mirrors :
      (consume : Bool) (now at : ℕ) (s : State redis) (admitted : List ℕ)
      → Mirrors now s admitted
      → now ≤ at
      → let (s', admitted') = serve redis policy (attempt consume at) s admitted in
        Mirrors at s' admitted'
  unfolding serve check_redis
  attempt-Mirrors consume now at s admitted m h =
      elim (Bool-cases (ltb 0 (pttl redis at s.blocked_until))) [
        | inl blocked ↦ rw blocked (ground (arith, Mirrors-later now s admitted m at h))
        | inr unblocked ↦ unblocked_attempt consume unblocked
      ]
    where
      card : ℕ
      card = redis.card (trimmed now s admitted m at h)

      unblocked_attempt :
          (c : Bool)
          → ltb 0 (pttl redis at s.blocked_until) ≡ false
          → let (s', admitted') = serve redis policy (attempt c at) s admitted in
            Mirrors at s' admitted'
      unblocked_attempt true u = elim (Bool-cases (ltb card policy.limit)) [
        | inl room ↦ rw (u, room) (Mirrors-added now s admitted m at h (ltb→lt _ _ room))
        | inr full ↦ rw (u, full) (Mirrors-trimmed now s admitted m at h)
      ]
      unblocked_attempt false u = elim (Bool-cases (ltb card policy.limit)) [
        | inl room ↦ rw (u, room) (Mirrors-trimmed now s admitted m at h)
        | inr full ↦ rw (u, full) (Mirrors-trimmed now s admitted m at h)
      ]

  pub serve-Mirrors :
      (c : Call) (now : ℕ) (s : State redis) (admitted : List ℕ)
      → Mirrors now s admitted
      → now ≤ time_of c
      → let (s', admitted') = serve redis policy c s admitted in Mirrors (time_of c) s' admitted'
  unfolding serve
  serve-Mirrors (attempt consume at) now s admitted m h =
      attempt-Mirrors consume now at s admitted m h
  serve-Mirrors (penalty at) now s admitted m h =
      unfold block in
      (let l = Mirrors-later now s admitted m at h in
        record {
          counts = l.counts;
          kept = l.kept;
          serials = l.serials;
          past = l.past;
          bounded = l.bounded;
        })
  serve-Mirrors (pardon at) now s admitted m h =
      unfold unblock in
      (let l = Mirrors-later now s admitted m at h in
        record {
          counts = l.counts;
          kept = l.kept;
          serials = l.serials;
          past = l.past;
          bounded = l.bounded;
        })

  unfoldable pub last_time : ℕ → List Call → ℕ
  last_time now [] = now
  last_time now (c ∷ cs) = last_time (time_of c) cs

  pub serve_all-Mirrors :
      (calls : List Call) (now : ℕ) (s : State redis) (admitted : List ℕ)
      → Mirrors now s admitted
      → IsOrdered now calls
      → let (s', admitted') = serve_all redis policy calls s admitted in
        Mirrors (last_time now calls) s' admitted'
  unfolding serve_all last_time
  serve_all-Mirrors [] now s admitted m o = m
  serve_all-Mirrors (c ∷ cs) now s admitted m (h, o) =
      let (s', admitted') = serve redis policy c s admitted in
      serve_all-Mirrors cs (time_of c) s' admitted' (serve-Mirrors c now s admitted m h) o

  pub fresh-Mirrors : (now : ℕ) → Mirrors now (fresh redis policy) []
  fresh-Mirrors now = record {
    counts = λ later p k. redis.count-nothing (live_at width later p);
    kept = tt;
    serials = λ n e. let k = redis.has-nothing n in cc;
    past = tt;
    bounded = λ end. omega arith;
  }

-- Whatever calls are made on a key, at times that do not go back and with blocks set and lifted
-- between them, no window of `window_seconds`, wherever it ends, holds more consumed and admitted
-- requests than the policy's limit.
pub sliding_window_bounded :
    (redis : SortedSet) (policy : RateLimitPolicy) (calls : List Call) (end : ℕ)
    → IsOrdered 0 calls
    → count_if
        (in_window (policy.window_seconds * 1000) end)
        (serve_all redis policy calls (fresh redis policy) []).1
      ≤ policy.limit
sliding_window_bounded redis policy calls end o =
    let m =
      serve_all-Mirrors redis policy calls 0 (fresh redis policy) [] (fresh-Mirrors redis policy 0)
        o in
    m.bounded end
