-- ===== src/Tests/Tokens.antt =====
-- A session that is refreshed and whose old token is stolen, and a link that is clicked twice. The
-- hash is the identity: no two tokens share one.
use wedding_saas.Base.{refl, arith, [], ◌≤◌, ◌≡◌, ◌∷◌, ℕ, List}
use wedding_saas.Tokens.Refresh
use wedding_saas.Tokens.SingleUse
use wedding_saas.Tokens.Rotation.{spent_once, times_spent, TokenEvent, sessions}
use wedding_saas.Tokens.Theft.{rotate-rotated_again}
use wedding_saas.Tokens.Redeemed
use wedding_saas.Tokens.Redeemed.{one_link, unused, LinkEvent}

abbrev plain : ℕ → ℕ
plain token = token

abbrev one_session : List Refresh.RefreshToken
one_session = Refresh.issued_row plain 7 11 1000 ∷ []

abbrev stolen_session : List (TokenEvent plain)
stolen_session =
    TokenEvent.refresh 11 12 2000
    ∷ TokenEvent.refresh 11 13 3000
    ∷ TokenEvent.refresh 11 14 4000
    ∷ []

spent_once_example : times_spent plain 11 stolen_session one_session ≤ 1
spent_once_example = spent_once plain 11 stolen_session one_session (refl, (refl, (refl, tt)))

rotate-rotated_again_example :
    let rows1 = (Refresh.rotate_refresh_token plain 11 12 2000 one_session).1 in
    let (answer, rows2) = Refresh.rotate_refresh_token plain 11 13 3000 rows1 in
    (answer ≡ Refresh.reuse_detected 7 (sessions 7 rows1))
    × (1 ≤ sessions 7 rows1)
    × (sessions 7 rows2 ≡ 0)
unfolding Refresh.rotate_refresh_token
rotate-rotated_again_example =
    rotate-rotated_again plain 11 12 13 2000 3000 one_session 7
      (record { token = 12; expires_at = 2592002000 }) (omega arith) refl refl

abbrev one_reset : List SingleUse.UserToken
one_reset = SingleUse.issued_token plain 7 SingleUse.password_reset 21 1000 ∷ []

one_reset-unused :
    (user_id : ℕ) (type : SingleUse.SingleUseTokenType) → unused user_id type one_reset ≤ 1
one_reset-unused user_id type = ground arith

one_link_example :
    unused 7 SingleUse.password_reset
      (Redeemed.after plain (LinkEvent.issue 7 SingleUse.password_reset 22 5000 ∷ []) one_reset)
    ≤ 1
one_link_example =
    one_link plain (LinkEvent.issue 7 SingleUse.password_reset 22 5000 ∷ []) one_reset
      one_reset-unused 7 SingleUse.password_reset
