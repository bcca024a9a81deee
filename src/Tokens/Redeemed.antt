-- ===== src/Tokens/Redeemed.antt =====
-- The lives of single-use tokens: one link at a time.
use wedding_saas.Base.Table.{update_where}
use wedding_saas.Base.{
  refl, count_if-update_where_self, ◌&&◌, ◌==◌, Bool-cases, count_if-update_where_le, arith, ◌∷◌,
  inr, inl, count_if-append, find, ◌↔◌, Option-cases, ◌≤◌, true, count_if, [], ◌≡◌, List, ℕ,
}
use wedding_saas.Tokens.SingleUse.{
  issued_token, is_claimable, use_up, is_unused_of, UserToken, same_type, issue_token,
  SingleUseTokenType, consume_token,
}

-- How many tokens of a type a user holds unused.
abbrev pub unused : ℕ → SingleUseTokenType → List UserToken → ℕ
unused user_id type rows = count_if (is_unused_of user_id type) rows

same_type_iff : (a b : SingleUseTokenType) → (same_type a b ≡ true) ↔ (a ≡ b)
same_type_iff SingleUseTokenType.email_verification SingleUseTokenType.email_verification =
    (λ h. refl, λ h. refl)
same_type_iff SingleUseTokenType.email_verification SingleUseTokenType.password_reset =
    (λ h. cc, λ h. cc)
same_type_iff SingleUseTokenType.password_reset SingleUseTokenType.email_verification =
    (λ h. cc, λ h. cc)
same_type_iff SingleUseTokenType.password_reset SingleUseTokenType.password_reset =
    (λ h. refl, λ h. refl)

module _ (hash : ℕ → ℕ) where
  pub data LinkEvent : Type 0 where
    -- a user, a type, the token that is drawn, and the time
    issue : ℕ → SingleUseTokenType → ℕ → ℕ → LinkEvent
    -- the token presented, its type, and the time
    redeem : ℕ → SingleUseTokenType → ℕ → LinkEvent

  unfoldable pub after : List LinkEvent → List UserToken → List UserToken
  after [] rows = rows
  after (issue user_id type token now ∷ es) rows =
      after es (issue_token hash user_id type token now rows).1
  after (redeem token type now ∷ es) rows = after es (consume_token hash token type now rows).1

  issue-unused :
      (u user_id token now : ℕ) (ty type : SingleUseTokenType) (rows : List UserToken)
      → unused u ty rows ≤ 1
      → unused u ty (issue_token hash user_id type token now rows).1 ≤ 1
  unfolding issue_token
  issue-unused u user_id token now ty type rows h =
      let used = update_where (is_unused_of user_id type) (use_up now) rows in
      let added =
        count_if-append (is_unused_of u ty) used (issued_token hash user_id type token now ∷ []) in
      let fewer =
        count_if-update_where_le (is_unused_of u ty) (is_unused_of user_id type) (use_up now)
          (λ t a b. ground arith) rows in
      elim (Bool-cases ((user_id == u) && same_type type ty)) [
        | inr other ↦ rw added (rw other (omega (arith, fewer)))
        | inl same ↦
            let gone =
              count_if-update_where_self (is_unused_of user_id type) (use_up now)
                (λ t. ground arith) rows in
            let e : user_id ≡ u = ground arith in
            let t : type ≡ ty = (same_type_iff type ty).0 (ground arith) in
            let none_left : count_if (is_unused_of u ty) used ≡ 0 = rw (← e) (rw (← t) gone) in
            rw added (rw same (omega (arith, none_left)))
      ]

  consume-unused :
      (u token now : ℕ) (ty type : SingleUseTokenType) (rows : List UserToken)
      → unused u ty rows ≤ 1
      → unused u ty (consume_token hash token type now rows).1 ≤ 1
  unfolding consume_token
  consume-unused u token now ty type rows h =
      elim (Option-cases (find (is_claimable hash token type now) rows)) [
        | inl nothing ↦ rw (nothing, consume_token) h
        | inr (c, claimed) ↦
            rw (claimed, consume_token)
              (omega (
                arith,
                count_if-update_where_le (is_unused_of u ty) (is_claimable hash token type now)
                    (use_up now) (λ t a b. ground arith) rows,
              ))
      ]

  -- However links are asked for and clicked, with each request handled after the one before it,
  -- a user who holds at most one unused token of each type holds at most one of each
  -- afterwards.
  pub one_link :
      (events : List LinkEvent) (rows : List UserToken)
      → ((user_id : ℕ) (type : SingleUseTokenType) → unused user_id type rows ≤ 1)
      → (user_id : ℕ) (type : SingleUseTokenType) → unused user_id type (after events rows) ≤ 1
  unfolding after
  one_link [] rows h user_id type = h user_id type
  one_link (issue user_id type token now ∷ es) rows h v kind =
      one_link es (issue_token hash user_id type token now rows).1
        (λ u ty. issue-unused u user_id token now ty type rows (h u ty)) v kind
  one_link (redeem token type now ∷ es) rows h v kind =
      one_link es (consume_token hash token type now rows).1
        (λ u ty. consume-unused u token now ty type rows (h u ty)) v kind
