-- ===== src/Tokens/Rotation.antt =====
-- How often a refresh token is spent.
use wedding_saas.Base.Table.{update_where}
use wedding_saas.Base.{
  count_if-update_where_lt, count_if-append, find_sound, ◌++◌, count_if-update_where_le, All, refl,
  Bool-cases, inr, arith, inl, find, [], ◌+◌, is_none, Option-cases, ◌≤◌, true, if◌then◌else◌, ◌∷◌,
  ◌&&◌, false, count_if, ◌≡◌, Bool, ◌==◌, List, ℕ,
}
use wedding_saas.Tokens.Refresh.{
  revoke, issued_row, is_claimable, revoke_refresh_token, is_live_of, bears, rotated, refuse,
  issue_refresh_token, RefreshToken, revoke_all_for_user, RotateResult, rotate_refresh_token,
}

-- How many sessions a user has.
abbrev pub sessions : ℕ → List RefreshToken → ℕ
sessions user_id rows = count_if (is_live_of user_id) rows

module _ (hash : ℕ → ℕ) where
  -- How many rows bear a token and were not revoked.
  abbrev pub unspent : ℕ → List RefreshToken → ℕ
  unspent token rows = count_if (λ r. bears hash token r && is_none r.revoked_at) rows

  pub data TokenEvent : Type 0 where
    -- a user, the token that is drawn, and the time
    login : ℕ → ℕ → ℕ → TokenEvent
    -- the token presented, the one that is drawn, and the time
    refresh : ℕ → ℕ → ℕ → TokenEvent
    logout : ℕ → ℕ → TokenEvent
    -- a user and the time
    logout_everywhere : ℕ → ℕ → TokenEvent

  unfoldable pub after : TokenEvent → List RefreshToken → List RefreshToken
  after (login user_id token now) rows = (issue_refresh_token hash user_id token now rows).1
  after (refresh token successor now) rows = (rotate_refresh_token hash token successor now rows).1
  after (logout token now) rows = revoke_refresh_token hash token now rows
  after (logout_everywhere user_id now) rows = (revoke_all_for_user user_id now rows).1

  abbrev pub is_rotated : RotateResult → Bool
  is_rotated (rotated user_id issued) = true
  is_rotated _ = false

  -- Whether an event spends a token.
  unfoldable pub spends : ℕ → TokenEvent → List RefreshToken → Bool
  spends t (refresh token successor now) rows =
      (hash token == hash t) && is_rotated (rotate_refresh_token hash token successor now rows).0
  spends t _ rows = false

  unfoldable pub times_spent : ℕ → List TokenEvent → List RefreshToken → ℕ
  times_spent t [] rows = 0
  times_spent t (e ∷ es) rows =
      let later = times_spent t es (after e rows) in if spends t e rows then later + 1 else later

  -- The event draws no token with the hash of this one.
  abbrev pub DrawsOther : ℕ → TokenEvent → Type 0
  DrawsOther t (login user_id token now) = (hash token == hash t) ≡ false
  DrawsOther t (refresh token successor now) = (hash successor == hash t) ≡ false
  DrawsOther t _ = Unit

  pub refuse-unspent :
      (t token now : ℕ) (rows : List RefreshToken)
      → (unspent t (refuse hash token now rows).1 ≤ unspent t rows)
        × (is_rotated (refuse hash token now rows).0 ≡ false)
  unfolding revoke_all_for_user
  refuse-unspent t token now rows = elim (Option-cases (find (bears hash token) rows)) [
    | inl unknown ↦ rw (unknown, refuse) (omega arith, refl)
    | inr (found, there) ↦ elim (Bool-cases (is_none found.revoked_at)) [
      | inl expired ↦ rw (there, refuse) (rw expired (omega arith, refl))
      | inr stolen ↦
          rw (there, refuse)
            (rw stolen (
              count_if-update_where_le _ (is_live_of found.user_id) (revoke now)
                  (λ r a b. ground arith) rows,
              refl,
            ))
    ]
  ]

  drawn_elsewhere :
      (t user_id token now : ℕ) (rows : List RefreshToken)
      → (hash token == hash t) ≡ false
      → unspent t (rows ++ issued_row hash user_id token now ∷ []) ≡ unspent t rows
  drawn_elsewhere t user_id token now rows other = ground (
    arith,
    count_if-append (λ r. bears hash t r && is_none r.revoked_at) rows
        (issued_row hash user_id token now ∷ []),
  )

  abbrev one_if_spent : Bool → ℕ
  one_if_spent spent = if spent then 1 else 0

  rotate-unspent :
      (t token successor now : ℕ) (rows : List RefreshToken)
      → (hash successor == hash t) ≡ false
      → one_if_spent (spends t (refresh token successor now) rows)
          + unspent t (rotate_refresh_token hash token successor now rows).1
        ≤ unspent t rows
  unfolding rotate_refresh_token spends
  rotate-unspent t token successor now rows other =
      elim (Option-cases (find (is_claimable hash token now) rows)) [
        | inl nothing ↦
            let (fewer, refused) = refuse-unspent t token now rows in
            rw (nothing, rotate_refresh_token) (ground arith)
        | inr (c, claimed) ↦
            let sound = find_sound (is_claimable hash token now) rows c claimed in
            let kept =
              drawn_elsewhere t c.user_id successor now
                (update_where (is_claimable hash token now) (revoke now) rows) other in
            let fewer =
              count_if-update_where_le (λ r. bears hash t r && is_none r.revoked_at)
                (is_claimable hash token now) (revoke now) (λ r a b. ground arith) rows in
            rw (claimed, rotate_refresh_token)
              (elim (Bool-cases (hash token == hash t)) [
                | inr another ↦ rw another (omega (arith, kept, fewer))
                | inl same ↦
                    let less =
                      count_if-update_where_lt (λ r. bears hash t r && is_none r.revoked_at)
                        (is_claimable hash token now) (revoke now) (λ r a. ground arith) rows c
                        claimed (ground arith) in
                    rw same (omega (arith, kept, less))
              ])
      ]

  after-unspent :
      (t : ℕ) (e : TokenEvent) (rows : List RefreshToken)
      → DrawsOther t e
      → one_if_spent (spends t e rows) + unspent t (after e rows) ≤ unspent t rows
  unfolding after spends
  after-unspent t (login user_id token now) rows other =
      unfold issue_refresh_token in
      ((omega (arith, drawn_elsewhere t user_id token now rows other)))
  after-unspent t (refresh token successor now) rows other =
      rotate-unspent t token successor now rows other
  after-unspent t (logout token now) rows other =
      unfold revoke_refresh_token in
      ((omega (
        arith,
        count_if-update_where_le (λ r. bears hash t r && is_none r.revoked_at)
            (λ r. bears hash token r && is_none r.revoked_at) (revoke now) (λ r a b. ground arith)
            rows,
      )))
  after-unspent t (logout_everywhere user_id now) rows other =
      unfold revoke_all_for_user in
      ((omega (
        arith,
        count_if-update_where_le (λ r. bears hash t r && is_none r.revoked_at) (is_live_of user_id)
            (revoke now) (λ r a b. ground arith) rows,
      )))

  -- Over any sequence of logins, refreshes and logouts that does not draw a token with the hash of
  -- this one, the token is spent at most as often as rows bear it unrevoked: once, if it was issued
  -- once, and never, if it was revoked.
  pub spent_once :
      (t : ℕ) (events : List TokenEvent) (rows : List RefreshToken)
      → All (DrawsOther t) events
      → times_spent t events rows ≤ unspent t rows
  unfolding times_spent
  spent_once t [] rows other = omega arith
  spent_once t (e ∷ es) rows (other, others) =
      (ground (arith, after-unspent t e rows other, spent_once t es (after e rows) others))
