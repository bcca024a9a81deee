-- ===== src/RateLimit/Retry.antt =====
-- What a refusal of a full window promises in its `Retry-After`.
use wedding_saas.RateLimit.Policy.{RateLimitPolicy}
use wedding_saas.RateLimit.Window.{
  pardon, penalty, attempt, serve, fresh, time_of, IsOrdered, serve_all, Call, in_window,
}
use wedding_saas.RateLimit.Sliding.{
  fresh-Mirrors, serve_all-Mirrors, last_time, next, live-counts, trimmed-card, Mirrors-later,
  trimmed, Mirrors, live_at,
}
use wedding_saas.Base.{
  ◌∙◌, sym, zero, suc, leb, inr, inl, count_if_none, Bool-cases, Option-cases, ◌-◌, if◌then◌else◌,
  lt→ltb, max, false, ◌*◌, [], ◌∷◌, ◌==◌, true, ltb, fun_ext, not, ap, ◌<◌, count_if, arith, ◌≤◌,
  ◌+◌, ◌&&◌, some, All, ◌≡◌, List, Bool, ℕ,
}
use wedding_saas.RateLimit.SortedSet.{SortedSet}
use wedding_saas.RateLimit.Limiter.{or_zero, ceil_seconds, pttl, live_window, check_redis, State}

in_window_of_live :
    (width at : ℕ) (ts : List ℕ)
    → All (λ t. t ≤ at) ts
    → count_if (live_at width at (λ _. true)) ts ≤ count_if (in_window width at) ts
in_window_of_live width at [] h = omega arith
in_window_of_live width at (t ∷ ts) (h, hs) = ground (arith, in_window_of_live width at ts hs)

-- The seconds rounded up cover the milliseconds until the oldest request leaves the window.
long_enough :
    (o width at r : ℕ)
    → 0 < o
    → some r ≡ some (max 1 (ceil_seconds ((if ltb 0 o then o + width else at) - at)))
    → o + width ≤ at + r * 1000
long_enough o width at r pos e = ground arith

module _ (redis : SortedSet) where
  open redis use {count}

  count_le : (p q : ℕ → Bool) (z : redis.Z) → ((s : ℕ) → (p s && q s) ≡ q s) → count q z ≤ count p z
  count_le p q z h = omega (arith, redis.count-split p q z, ap (λ r. count r z) (fun_ext h))

  -- Once the least score has left the window, a place is free.
  card_after :
      (later width oldest : ℕ) (z : redis.Z)
      → redis.oldest z ≡ some oldest
      → oldest + width ≤ later
      → redis.card (redis.remove_upto later width z) < redis.card z
  card_after later width oldest z e h =
      let live : ℕ → Bool = λ s. ltb later (s + width) in
      let same : (λ s. live s && true) ≡ live = fun_ext (λ s. ground arith) in
      let out : (s : ℕ) → (not (live s) && (s == oldest)) ≡ (s == oldest) = λ s. ground arith in
      omega (
        arith,
        redis.card-count z,
        redis.card-count (redis.remove_upto later width z),
        redis.count-remove_upto (λ _. true) later width z,
        redis.count-split (λ _. true) live z,
        ap (λ r. count r z) same,
        count_le (λ s. not (live s)) (λ s. s == oldest) z out,
        redis.oldest-counted z oldest e,
      )

module _ (redis : SortedSet) (policy : RateLimitPolicy) where
  abbrev window_ms : ℕ
  window_ms = policy.window_seconds * 1000

  -- An unblocked check that finds room allows.
  check_redis-allowed :
      (c : Bool) (at : ℕ) (s : State redis)
      → s.blocked_until ≤ at
      → redis.card (redis.remove_upto at window_ms (live_window redis at s)) < policy.limit
      → (check_redis redis policy c at s).1.allowed ≡ true
  unfolding check_redis
  check_redis-allowed c at s free room =
      let u : ltb 0 (pttl redis at s.blocked_until) ≡ false = ground arith in
      rw (u, lt→ltb _ _ room)

  -- What an unblocked refusal says of the state.
  refusal :
      (c : Bool) (at : ℕ) (s : State redis)
      → let (s', d) = check_redis redis policy c at s in
        let kept = redis.remove_upto at window_ms (live_window redis at s) in
        d.allowed ≡ false
        → d.blocked ≡ false
        → (s.blocked_until ≤ at)
          × (policy.limit ≤ redis.card kept)
          × (s' ≡ record s {
            window = kept;
            window_expires = at + window_ms;
            counter = s.counter + 1;
          })
          × (d.retry_after_seconds
              ≡ some (
                  max 1 (
                    ceil_seconds (
                      (if ltb 0 (or_zero redis (redis.oldest kept))
                        then or_zero redis (redis.oldest kept) + window_ms
                        else at)
                      - at))))
  unfolding check_redis
  refusal true at s refused unblocked = (ground arith, ground arith, ground arith, ground arith)
  refusal false at s refused unblocked = (ground arith, ground arith, ground arith, ground arith)

  -- A check that finds the window full.
  module _ (now : ℕ) (s : State redis) (admitted : List ℕ) (m : Mirrors redis policy now s admitted)
      (at : ℕ) (h : now ≤ at) where
    card_bounded : redis.card (trimmed redis policy now s admitted m at h) ≤ policy.limit
    card_bounded =
        let l = Mirrors-later redis policy now s admitted m at h in
        omega (
          arith,
          trimmed-card redis policy now s admitted m at h,
          in_window_of_live window_ms at admitted l.past,
          m.bounded at,
        )

    least_pos :
        (o : ℕ)
        → All (λ t. 1 ≤ t) admitted
        → redis.oldest (trimmed redis policy now s admitted m at h) ≡ some o
        → 0 < o
    least_pos zero early e = absurd (
        omega (
          arith,
          redis.oldest-counted _ 0 e,
          redis.count-remove_upto (λ t. t == 0) at window_ms (live_window redis at s),
          live-counts redis policy now s admitted m at at (λ t. t == 0) h (omega arith),
          count_if_none (live_at window_ms at (λ t. t == 0)) admitted (never_zero admitted early),
        ))
      where
        never_zero :
            (ts : List ℕ)
            → All (λ t. 1 ≤ t) ts
            → All (λ t. live_at window_ms at (λ u. u == 0) t ≡ false) ts
        never_zero [] k = tt
        never_zero (t ∷ ts) (k, ks) = (ground arith, never_zero ts ks)
    least_pos (suc o) early e = omega arith

    -- At a time when the least score has left the window, the next check is allowed.
    allowed_at :
        (c' : Bool) (o later : ℕ)
        → 0 < policy.limit
        → redis.oldest (trimmed redis policy now s admitted m at h) ≡ some o
        → o + window_ms ≤ later
        → s.blocked_until ≤ later
        → (check_redis redis policy c' later (
            next redis policy now s admitted m at h
              (trimmed redis policy now s admitted m at h))).1.allowed
          ≡ true
    allowed_at c' o later pos e out free =
        check_redis-allowed c' later _ free (elim (Bool-cases (leb (at + window_ms) later)) [
          | inl dead ↦ rw dead (
              omega (
                arith,
                redis.card-count (redis.remove_upto later window_ms redis.nothing),
                redis.count-remove_upto (λ _. true) later window_ms redis.nothing,
                redis.count-nothing (λ t. ltb later (t + window_ms) && true),
              ))
          | inr alive ↦
              rw alive (omega (arith, card_bounded, card_after redis later window_ms o _ e out))
        ])

    refused_then_allowed :
        (c c' : Bool) (r : ℕ)
        → 0 < policy.limit
        → All (λ t. 1 ≤ t) admitted
        → let (s', d) = check_redis redis policy c at s in
          d.allowed ≡ false
          → d.blocked ≡ false
          → d.retry_after_seconds ≡ some r
          → (check_redis redis policy c' (at + r * 1000) s').1.allowed ≡ true
    refused_then_allowed c c' r pos early refused unblocked after =
        let (free, full, stored, wait) = refusal c at s refused unblocked in
        elim (Option-cases (redis.oldest (trimmed redis policy now s admitted m at h))) [
          | inl nothing_left ↦ absurd (omega (arith, redis.oldest-none _ nothing_left))
          | inr (o, e) ↦
              let o_pos = least_pos o early e in
              rw stored (
                allowed_at c' o (at + r * 1000) pos e
                  (long_enough o window_ms at r o_pos (sym after ∙ (rw e at wait))) (omega arith))
        ]

note-late :
    (b : Bool) (t : ℕ) (ts : List ℕ)
    → 1 ≤ t
    → All (λ u. 1 ≤ u) ts
    → All (λ u. 1 ≤ u) (if b then t ∷ ts else ts)
note-late true t ts h k = (h, k)
note-late false t ts h k = k

serve-late :
    (redis : SortedSet) (policy : RateLimitPolicy) (c : Call) (s : State redis) (admitted : List ℕ)
    → 1 ≤ time_of c
    → All (λ t. 1 ≤ t) admitted
    → All (λ t. 1 ≤ t) (serve redis policy c s admitted).1
unfolding serve
serve-late redis policy (attempt consume now) s admitted h k =
    note-late (consume && (check_redis redis policy consume now s).1.allowed) now admitted h k
serve-late redis policy (penalty now) s admitted h k = k
serve-late redis policy (pardon now) s admitted h k = k

-- Admitted requests are no earlier than the first call.
serve_all-late :
    (redis : SortedSet) (policy : RateLimitPolicy) (calls : List Call) (now : ℕ) (s : State redis)
    (admitted : List ℕ)
    → 1 ≤ now
    → IsOrdered now calls
    → All (λ t. 1 ≤ t) admitted
    → All (λ t. 1 ≤ t) (serve_all redis policy calls s admitted).1
unfolding serve_all
serve_all-late redis policy [] now s admitted pos o k = k
serve_all-late redis policy (c ∷ cs) now s admitted pos (h, o) k =
    let (s', admitted') = serve redis policy c s admitted in
    serve_all-late redis policy cs (time_of c) s' admitted' (omega arith) o
      (serve-late redis policy c s admitted (omega arith) k)

-- After any calls at times that do not go back, a request that the full window refuses with
-- `Retry-After: r` is allowed `r` seconds later, if no other call comes between.
pub retry_after_suffices :
    (redis : SortedSet) (policy : RateLimitPolicy) (calls : List Call) (at r : ℕ) (c c' : Bool)
    → 0 < policy.limit
    → IsOrdered 1 calls
    → last_time redis policy 1 calls ≤ at
    → let s = (serve_all redis policy calls (fresh redis policy) []).0 in
      let (s', d) = check_redis redis policy c at s in
      d.allowed ≡ false
      → d.blocked ≡ false
      → d.retry_after_seconds ≡ some r
      → (check_redis redis policy c' (at + r * 1000) s').1.allowed ≡ true
retry_after_suffices redis policy calls at r c c' pos o late refused unblocked after =
    let (s, admitted) = serve_all redis policy calls (fresh redis policy) [] in
    refused_then_allowed redis policy (last_time redis policy 1 calls) s admitted
      (serve_all-Mirrors redis policy calls 1 (fresh redis policy) [] (fresh-Mirrors redis policy 1)
        o)
      at late c c' r pos
      (serve_all-late redis policy calls 1 (fresh redis policy) [] (omega arith) o tt) refused
      unblocked after
