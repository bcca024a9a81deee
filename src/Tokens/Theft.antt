-- ===== src/Tokens/Theft.antt =====
-- Reuse of a refresh token that was rotated.
use wedding_saas.Base.Table.{find-update_where, update_where}
use wedding_saas.Tokens.Refresh.{
  refresh_token_ttl_ms, refuse, is_claimable, reuse_detected, rotated, is_live_of, revoke, bears,
  issued_row, IssuedRefreshToken, revoke_all_for_user, RefreshToken, rotate_refresh_token,
}
use wedding_saas.Base.{
  count_if-update_where_self, ap, ◌∙◌, sym, true, refl, find-append, find-of_count,
  count_if-update_where_eq, find_sound, is_none, inr, some, inl, none, Option-cases, find,
  count_if-append, if◌then◌else◌, arith, ◌+◌, false, ◌≡◌, ◌==◌, [], ◌∷◌, count_if, ◌≤◌, ◌++◌, List,
  ℕ,
}
use wedding_saas.Tokens.Rotation.{is_rotated, refuse-unspent, sessions}

module _ (hash : ℕ → ℕ) where
  issued_sessions :
      (v user_id token now : ℕ) (rows : List RefreshToken)
      → sessions v (rows ++ issued_row hash user_id token now ∷ [])
        ≡ sessions v rows + (if user_id == v then 1 else 0)
  issued_sessions v user_id token now rows =
      ground (arith, count_if-append (is_live_of v) rows (issued_row hash user_id token now ∷ []))

  -- A token whose only row is revoked is answered as theft.
  rotate_revoked :
      (token again later : ℕ) (rows : List RefreshToken) (d : RefreshToken)
      → count_if (bears hash token) rows ≤ 1
      → find (bears hash token) rows ≡ some d
      → is_none d.revoked_at ≡ false
      → rotate_refresh_token hash token again later rows ≡ (
        reuse_detected d.user_id (sessions d.user_id rows),
        update_where (is_live_of d.user_id) (revoke later) rows,
      )
  unfolding rotate_refresh_token revoke_all_for_user
  rotate_revoked token again later rows d one found spent =
      elim (Option-cases (find (is_claimable hash token later) rows)) [
        | inl nothing ↦ rw (nothing, rotate_refresh_token) (rw (found, refuse) (rw spent refl))
        | inr (e, claimed) ↦
            let wide =
              find-of_count (is_claimable hash token later) (bears hash token) (λ r a. ground arith)
                rows e one claimed in
            let same : e ≡ d = ground arith in
            let sound = find_sound (is_claimable hash token later) rows e claimed in
            absurd (ground arith)
      ]

  -- The rows after a rotation that claimed a row.
  module _ (token successor now : ℕ) (rows : List RefreshToken) (c : RefreshToken)
      (claimed : find (is_claimable hash token now) rows ≡ some c) where
    abbrev spent_rows : List RefreshToken
    spent_rows = update_where (is_claimable hash token now) (revoke now) rows

    abbrev rows_after : List RefreshToken
    rows_after = spent_rows ++ issued_row hash c.user_id successor now ∷ []

    bears-rows_after :
        count_if (bears hash token) rows ≤ 1
        → find (bears hash token) rows_after ≡ some (revoke now c)
    bears-rows_after one =
        let wide =
          find-of_count (is_claimable hash token now) (bears hash token) (λ r a. ground arith) rows
            c one claimed in
        find-append (bears hash token) spent_rows (issued_row hash c.user_id successor now ∷ [])
          (revoke now c)
          (find-update_where {A = RefreshToken} (bears hash token) (is_claimable hash token now)
              (revoke now) (λ r. refl) rows
            ∙ rw wide (rw (find_sound (is_claimable hash token now) rows c claimed) refl))

    count-rows_after :
        count_if (bears hash token) rows ≤ 1
        → (hash successor == hash token) ≡ false
        → count_if (bears hash token) rows_after ≤ 1
    count-rows_after one fresh = ground (
      arith,
      count_if-append (bears hash token) spent_rows (issued_row hash c.user_id successor now ∷ []),
      count_if-update_where_eq (bears hash token) (is_claimable hash token now) (revoke now)
          (λ r a. refl) rows,
    )

  rotate_unclaimed :
      (token successor now : ℕ) (rows : List RefreshToken)
      → find (is_claimable hash token now) rows ≡ none
      → rotate_refresh_token hash token successor now rows ≡ refuse hash token now rows
  unfolding rotate_refresh_token
  rotate_unclaimed token successor now rows nothing = rw (nothing, rotate_refresh_token)

  rotate_claimed :
      (token successor now : ℕ) (rows : List RefreshToken) (c : RefreshToken)
      (claimed : find (is_claimable hash token now) rows ≡ some c)
      → rotate_refresh_token hash token successor now rows ≡ (
        rotated c.user_id (record { token = successor; expires_at = now + refresh_token_ttl_ms }),
        rows_after token successor now rows c claimed,
      )
  unfolding rotate_refresh_token
  rotate_claimed token successor now rows c claimed = rw (claimed, rotate_refresh_token)

  -- If a token that one row bears was rotated, then presenting it again, whenever that is, is
  -- answered as theft, and ends every session of its user, the one that the rotation opened among
  -- them.
  pub rotate-rotated_again :
      (token successor again now later : ℕ) (rows : List RefreshToken) (user_id : ℕ)
      (issued : IssuedRefreshToken)
      → count_if (bears hash token) rows ≤ 1
      → (hash successor == hash token) ≡ false
      → (rotate_refresh_token hash token successor now rows).0 ≡ rotated user_id issued
      → let rows1 = (rotate_refresh_token hash token successor now rows).1 in
        let (answer, rows2) = rotate_refresh_token hash token again later rows1 in
        (answer ≡ reuse_detected user_id (sessions user_id rows1))
        × (1 ≤ sessions user_id rows1)
        × (sessions user_id rows2 ≡ 0)
  rotate-rotated_again token successor again now later rows user_id issued one fresh h =
      elim (Option-cases (find (is_claimable hash token now) rows)) [
        | inl nothing ↦
            let k = rw (rotate_unclaimed token successor now rows nothing) at h in
            let refused = (refuse-unspent hash token token now rows).1 in
            let clash : false ≡ true = sym refused ∙ ap (is_rotated hash) k in cc
        | inr (c, claimed) ↦
            let run = rotate_claimed token successor now rows c claimed in
            let k = rw run at h in
            let whose : c.user_id ≡ user_id = ground arith in
            let answered =
              rotate_revoked token again later (rows_after token successor now rows c claimed)
                (revoke now c) (count-rows_after token successor now rows c claimed one fresh)
                (bears-rows_after token successor now rows c claimed one) refl in
            rw run (
              rw answered (
                rw (← whose) (
                  refl,
                  ground (
                    arith,
                    issued_sessions c.user_id c.user_id successor now
                        (spent_rows token successor now rows c claimed),
                  ),
                  count_if-update_where_self (is_live_of c.user_id) (revoke later)
                      (λ r. ground arith) _,
                )))
      ]
