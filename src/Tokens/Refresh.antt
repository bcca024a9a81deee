-- ===== src/Tokens/Refresh.antt =====
-- backend/api/src/modules/auth/tokens/refresh-token.service.ts over the rows of `refresh_tokens`.
-- Times are milliseconds. The keyed hash is a parameter, and a token that the code draws at random
-- is an argument.
use wedding_saas.Base.Table.{update_where}
use wedding_saas.Base.{
  ltb, [], ◌∷◌, is_none, if◌then◌else◌, ◌==◌, ◌++◌, ◌&&◌, none, find, count_if, ◌+◌, some, Option,
  List, Bool, ℕ,
}

abbrev pub refresh_token_ttl_ms : ℕ
refresh_token_ttl_ms = 2592000000

pub record RefreshToken : Type 0 where
  pub user_id : ℕ
  pub token_hash : ℕ
  pub expires_at : ℕ
  pub revoked_at : Option ℕ

pub record IssuedRefreshToken : Type 0 where
  pub token : ℕ
  pub expires_at : ℕ

pub data RotateResult : Type 0 where
  rotated : ℕ → IssuedRefreshToken → RotateResult
  invalid : RotateResult
  -- the user, and how many sessions were revoked
  reuse_detected : ℕ → ℕ → RotateResult

abbrev pub revoke : ℕ → RefreshToken → RefreshToken
revoke now r = record r { revoked_at = some now }

abbrev pub is_live_of : ℕ → RefreshToken → Bool
is_live_of user_id r = (r.user_id == user_id) && is_none r.revoked_at

-- `revokeAllForUser`
unfoldable pub revoke_all_for_user : ℕ → ℕ → List RefreshToken → ℕ × List RefreshToken
revoke_all_for_user user_id now rows =
    (count_if (is_live_of user_id) rows, update_where (is_live_of user_id) (revoke now) rows)

module _ (hash : ℕ → ℕ) where
  abbrev pub issued_row : ℕ → ℕ → ℕ → RefreshToken
  issued_row user_id token now = record {
    user_id = user_id;
    token_hash = hash token;
    expires_at = now + refresh_token_ttl_ms;
    revoked_at = none;
  }

  -- `issueRefreshToken`
  unfoldable pub issue_refresh_token :
      ℕ → ℕ → ℕ → List RefreshToken → IssuedRefreshToken × List RefreshToken
  issue_refresh_token user_id token now rows = (
    record { token = token; expires_at = now + refresh_token_ttl_ms },
    rows ++ issued_row user_id token now ∷ [],
  )

  abbrev pub bears : ℕ → RefreshToken → Bool
  bears token r = r.token_hash == hash token

  -- `revokeRefreshToken`
  unfoldable pub revoke_refresh_token : ℕ → ℕ → List RefreshToken → List RefreshToken
  revoke_refresh_token token now rows =
      update_where (λ r. bears token r && is_none r.revoked_at) (revoke now) rows

  abbrev pub is_claimable : ℕ → ℕ → RefreshToken → Bool
  is_claimable token now r = bears token r && is_none r.revoked_at && ltb now r.expires_at

  -- The read after a failed claim.
  abbrev pub refuse : ℕ → ℕ → List RefreshToken → RotateResult × List RefreshToken
  refuse token now rows = elim (find (bears token) rows) [
    | none ↦ (invalid, rows)
    | some found ↦
        let (count, revoked) = revoke_all_for_user found.user_id now rows in
        if is_none found.revoked_at
        then (invalid, rows)
        else (reuse_detected found.user_id count, revoked)
  ]

  -- `rotateRefreshToken`
  unfoldable pub rotate_refresh_token :
      ℕ → ℕ → ℕ → List RefreshToken → RotateResult × List RefreshToken
  unfolding revoke_all_for_user
  rotate_refresh_token token successor now rows = elim (find (is_claimable token now) rows) [
    | none ↦ refuse token now rows
    | some claimed ↦ (
      rotated claimed.user_id
          (record { token = successor; expires_at = now + refresh_token_ttl_ms }),
      update_where (is_claimable token now) (revoke now) rows
          ++ issued_row claimed.user_id successor now ∷ [],
    )
  ]
