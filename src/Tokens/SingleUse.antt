-- ===== src/Tokens/SingleUse.antt =====
-- backend/api/src/modules/auth/tokens/single-use-token.service.ts over the rows of `user_tokens`.
-- Times are milliseconds. The hash is a parameter, and a token that the code draws at random is an
-- argument. Each operation is one step; the code takes no lock, so that two that overlap may interleave.
use wedding_saas.Base.Table.{update_where}
use wedding_saas.Base.{
  [], ◌∷◌, ◌++◌, ltb, none, is_none, find, false, ◌==◌, ◌+◌, ◌&&◌, true, some, if◌then◌else◌,
  Option, List, ℕ, Bool,
}

pub data SingleUseTokenType : Type 0 where
  email_verification password_reset : SingleUseTokenType

abbrev pub same_type : SingleUseTokenType → SingleUseTokenType → Bool
same_type email_verification email_verification = true
same_type password_reset password_reset = true
same_type _ _ = false

abbrev pub token_lifetime_ms : SingleUseTokenType → ℕ
token_lifetime_ms email_verification = 86400000
token_lifetime_ms password_reset = 3600000

pub record UserToken : Type 0 where
  pub user_id : ℕ
  pub type : SingleUseTokenType
  pub token_hash : ℕ
  pub expires_at : ℕ
  pub used_at : Option ℕ

pub record IssuedToken : Type 0 where
  pub token : ℕ
  pub expires_at : ℕ

pub data ConsumeResult : Type 0 where
  redeemed : ℕ → ConsumeResult
  invalid expired : ConsumeResult
  already_used : ℕ → ConsumeResult

abbrev pub use_up : ℕ → UserToken → UserToken
use_up now t = record t { used_at = some now }

abbrev pub is_unused_of : ℕ → SingleUseTokenType → UserToken → Bool
is_unused_of user_id type t = (t.user_id == user_id) && same_type t.type type && is_none t.used_at

module _ (hash : ℕ → ℕ) where
  abbrev pub issued_token : ℕ → SingleUseTokenType → ℕ → ℕ → UserToken
  issued_token user_id type token now = record {
    user_id = user_id;
    type = type;
    token_hash = hash token;
    expires_at = now + token_lifetime_ms type;
    used_at = none;
  }

  -- `issueToken`
  unfoldable pub issue_token :
      ℕ → SingleUseTokenType → ℕ → ℕ → List UserToken → IssuedToken × List UserToken
  issue_token user_id type token now rows = (
    record { token = token; expires_at = now + token_lifetime_ms type },
    update_where (is_unused_of user_id type) (use_up now) rows
        ++ issued_token user_id type token now ∷ [],
  )

  abbrev pub bears : ℕ → SingleUseTokenType → UserToken → Bool
  bears token type t = (t.token_hash == hash token) && same_type t.type type

  abbrev pub is_claimable : ℕ → SingleUseTokenType → ℕ → UserToken → Bool
  is_claimable token type now t = bears token type t && is_none t.used_at && ltb now t.expires_at

  abbrev pub reason_of : UserToken → ConsumeResult
  reason_of found = if is_none found.used_at then expired else already_used found.user_id

  -- The read after a failed claim.
  abbrev pub refuse : ℕ → SingleUseTokenType → List UserToken → ConsumeResult
  refuse token type rows = elim (find (bears token type) rows) [
    | none ↦ invalid
    | some found ↦ reason_of found
  ]

  -- `consumeToken`
  unfoldable pub consume_token :
      ℕ → SingleUseTokenType → ℕ → List UserToken → ConsumeResult × List UserToken
  consume_token token type now rows = elim (find (is_claimable token type now) rows) [
    | none ↦ (refuse token type rows, rows)
    | some claimed ↦
        (redeemed claimed.user_id, update_where (is_claimable token type now) (use_up now) rows)
  ]
