-- ===== src/Payment/Throttled.antt =====
-- How often the requests for a payment's status ask the provider.
use wedding_saas.Payment.StatusService.{is_throttled, query_throttle_seconds, Throttle}
use wedding_saas.Payment.Polled.{status-cases, poll, StatusRequest}
use wedding_saas.Payment.Webhook.{NotificationVerdict}
use wedding_saas.Base.{
  lt→ltb, ==_iff, true, All, arith, Bool-cases, refl, inr, inl, none, ◌==◌, [], some, if◌then◌else◌,
  ◌≡◌, ◌∷◌, ◌+◌, false, ◌<◌, Bool, ◌≤◌, Option, List, ℕ,
}

abbrev pub asks : ℕ → Option ℕ → Bool
asks reference none = false
asks reference (some r) = r == reference

-- The requests of half a minute, all of whose cache commands reach Redis
pub record IsWithin (start : ℕ) (q : StatusRequest) : Type 0 where
  pub after : start ≤ q.now
  pub before : q.now < start + query_throttle_seconds
  pub reads : q.cache.reads ≡ true
  pub writes : q.cache.writes ≡ true

module _ (add_months : ℕ → ℕ → ℕ) (provider : ℕ) (verify : ℕ → NotificationVerdict) where
  -- How many of the requests ask about the reference
  unfoldable pub count_asked : ℕ → List StatusRequest → Throttle → ℕ
  count_asked reference [] throttle = 0
  count_asked reference (q ∷ qs) throttle =
      let p = poll add_months provider verify q throttle in
      let rest = count_asked reference qs p.throttle in
      if asks reference p.asked then rest + 1 else rest

  -- Within the half minute, every request finds the reference throttled.
  abbrev Blocked : ℕ → ℕ → Throttle → Type 0
  Blocked reference start throttle =
      (t : ℕ) → t < start + query_throttle_seconds → is_throttled reference t throttle ≡ true

  count_asked-Blocked :
      (reference start : ℕ) (qs : List StatusRequest) (throttle : Throttle)
      → All (IsWithin start) qs
      → Blocked reference start throttle
      → count_asked reference qs throttle ≡ 0
  unfolding count_asked
  count_asked-Blocked reference start [] throttle within blocked = refl
  count_asked-Blocked reference start (q ∷ qs) throttle (here, within) blocked =
      elim (status-cases add_months provider verify q throttle) [
        | inl (silent, same) ↦
            rw (silent, same) (count_asked-Blocked reference start qs throttle within blocked)
        | inr (r, free, (asked_, kept)) ↦ elim (Bool-cases (r == reference)) [
          | inl about ↦
              let e = (==_iff r reference).0 about in
              let full = blocked q.now here.before in
              let open_ : is_throttled reference q.now throttle ≡ false =
                rw (here.reads, e) at free in
              absurd cc
          | inr other ↦
              rw (asked_, kept, here.writes, other)
                (count_asked-Blocked reference start qs
                  ((r, q.now + query_throttle_seconds) ∷ throttle) within
                  (λ t before. rw other (blocked t before)))
        ]
      ]

  -- Requests for the status, handled one after the other at times within half a minute, whose
  -- cache commands all reach Redis, of whichever orders and users, with whatever tables and
  -- earlier throttling, ask the provider about one reference at most once.
  pub status-asks_once :
      (reference start : ℕ) (qs : List StatusRequest) (throttle : Throttle)
      → All (IsWithin start) qs
      → count_asked reference qs throttle ≤ 1
  unfolding count_asked
  status-asks_once reference start [] throttle within = omega arith
  status-asks_once reference start (q ∷ qs) throttle (here, within) =
      elim (status-cases add_months provider verify q throttle) [
        | inl (silent, same) ↦
            rw (silent, same) (status-asks_once reference start qs throttle within)
        | inr (r, free, (asked_, kept)) ↦ elim (Bool-cases (r == reference)) [
          | inr other ↦
              rw (asked_, kept, here.writes, other)
                (status-asks_once reference start qs
                  ((r, q.now + query_throttle_seconds) ∷ throttle) within)
          | inl about ↦
              rw (asked_, kept, here.writes, about)
                (omega (
                  arith,
                  count_asked-Blocked reference start qs
                      ((r, q.now + query_throttle_seconds) ∷ throttle) within
                      (λ t before.
                        rw
                          (
                            about,
                            lt→ltb t (q.now + query_throttle_seconds)
                                (omega (arith, here.after, before)),
                          )
                          refl),
                ))
        ]
      ]
