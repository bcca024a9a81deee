-- ===== src/Publishing/Gate.antt =====
-- What stands before a publication.
use wedding_saas.Order.Repository.{owned_by}
use wedding_saas.Publishing.Entitlements.{for_invitation, Entitlements}
use wedding_saas.Publishing.Publish.{
  publish_locked, Effect, PublishedDto, prepare, PublishingUser, publish, assert_slug_usable,
  SlugRejection,
}
use wedding_saas.Errors.{AppError}
use wedding_saas.Db.{Invitation, Db}
use wedding_saas.Base.{
  Bool-cases, refl, inr, Option-cases, none, inl, find, some, Outcome-cases, List, ok, ◌≡◌, Option,
  String, Outcome, Bool, ℕ, true,
}

module _ (add_months : ℕ → ℕ → ℕ) (custom_domain_addon : ℕ) (is_uuid : ℕ → Bool)
    (readiness : ℕ → ℕ → Db → Outcome AppError Bool)
    (rejection : String → ℕ → Option SlugRejection) where
  assert_slug_usable-slug :
      (address : Option String) (id : ℕ)
      → assert_slug_usable add_months custom_domain_addon is_uuid readiness rejection address id
        ≡ ok tt
      → (slug : String) × (address ≡ some slug) × (rejection slug id ≡ none)
  assert_slug_usable-slug none id h = cc
  assert_slug_usable-slug (some String.[]) id h = cc
  assert_slug_usable-slug (some (String.◌∷◌ c s)) id h =
      elim (Option-cases (rejection (String.◌∷◌ c s) id)) [
        | inl usable ↦ (String.◌∷◌ c s, refl, usable)
        | inr (why, bad) ↦ let k = rw (bad, assert_slug_usable) at h in cc
      ]

  abbrev prepared : ℕ → ℕ → Db → Outcome AppError Entitlements
  prepared = prepare add_months custom_domain_addon is_uuid readiness rejection

  -- What the reads before the lock found.
  abbrev pub IsReady : ℕ → ℕ → Db → Entitlements → Type 0
  IsReady scope id seen e =
      (readiness scope id seen ≡ ok true)
      × ((current : Invitation) × (slug : String) × (find (owned_by id scope) seen.invitations
            ≡ some current)
          × (current.slug ≡ some slug)
          × (rejection slug id ≡ none))
      × (for_invitation custom_domain_addon is_uuid id seen ≡ ok e)

  prepare-IsReady :
      (scope id : ℕ) (seen : Db) (e : Entitlements)
      → prepared scope id seen ≡ ok e
      → IsReady scope id seen e
  prepare-IsReady scope id seen e h = elim (Outcome-cases (readiness scope id seen)) [
    | inl (why, refused) ↦ let k = rw refused at h in cc
    | inr (Bool.false, incomplete) ↦ let k = rw incomplete at h in cc
    | inr (Bool.true, ready) ↦
        let k = rw ready at h in
        elim (Option-cases (find (owned_by id scope) seen.invitations)) [
          | inl missing ↦ let l = rw missing at k in cc
          | inr (current, owned) ↦
              let l = rw owned at k in
              elim (Outcome-cases (
                assert_slug_usable add_months custom_domain_addon is_uuid readiness rejection
                  current.slug id)) [
                    | inl (why, bad) ↦ let m = rw bad at l in cc
                    | inr (tt, usable) ↦
                        let (slug, has, free) = assert_slug_usable-slug current.slug id usable in
                        (ready, (current, slug, owned, has, free), rw usable at l)
                  ]
        ]
  ]

  -- `publish` succeeds only for an owner whose address is verified, on an invitation that is
  -- complete and whose slug is set and not rejected, and then does what it does under the lock,
  -- with the entitlements read before it.
  pub publish-IsReady :
      (publisher : PublishingUser) (id now : ℕ) (seen db : Db) (dto : PublishedDto)
      (effects : List Effect) (db' : Db)
      → publish add_months custom_domain_addon is_uuid readiness rejection publisher id now seen db
        ≡ ok (dto, effects, db')
      → (publisher.email_verified ≡ true)
        × ((e : Entitlements) × (i : Invitation) × IsReady publisher.scope id seen e
            × (find (owned_by id publisher.scope) db.invitations ≡ some i)
            × (publish_locked add_months publisher.scope now e i db ≡ ok (dto, db')))
  unfolding publish
  publish-IsReady publisher id now seen db dto effects db' h =
      elim (Bool-cases publisher.email_verified) [
        | inr unverified ↦ let k = rw (unverified, publish) at h in cc
        | inl verified ↦
            let k = rw (verified, publish) at h in
            elim (Bool-cases (is_uuid id)) [
              | inr malformed ↦ let l = rw malformed at k in cc
              | inl known ↦
                  let l = rw known at k in
                  elim (Outcome-cases (prepared publisher.scope id seen)) [
                    | inl (why, refused) ↦ let m = rw refused at l in cc
                    | inr (e, read) ↦
                        let m = rw read at l in
                        elim (Option-cases (find (owned_by id publisher.scope) db.invitations)) [
                          | inl missing ↦ let n = rw missing at m in cc
                          | inr (i, owned) ↦
                              let n = rw owned at m in
                              elim (Outcome-cases
                                (publish_locked add_months publisher.scope now e i db)) [
                                  | inl (why, refused) ↦ let p = rw refused at n in cc
                                  | inr ((dto2, db2), done) ↦
                                      let p = rw done at n in
                                      let same_dto : dto2 ≡ dto = cc in
                                      let same_db : db2 ≡ db' = cc in
                                      (
                                        verified,
                                        (
                                          e,
                                          i,
                                          prepare-IsReady publisher.scope id seen e read,
                                          owned,
                                          rw (← same_dto, ← same_db) done,
                                        ),
                                      )
                                ]
                        ]
                  ]
            ]
      ]
