-- ===== src/Publishing/Trial.antt =====
-- What a second publication of a trial does not give: more than its three days.
use wedding_saas.Publishing.Published.{publish_locked-eq}
use wedding_saas.Publishing.Validity.{trial_resumed, first_trial, resumed, bought, Grants}
use wedding_saas.Publishing.Publish.{
  kept, days, or_now, is_running, is_republish, publish_locked, PublishedDto, PublicationTerm,
}
use wedding_saas.Status.Service.{ever_reached, invitation_by_id}
use wedding_saas.Status.Rules.{InvitationStatus}
use wedding_saas.Publishing.Entitlements.{Entitlements}
use wedding_saas.Db.{wib_day, Db, Invitation}
use wedding_saas.Base.{
  leb→le, ap, sym, ◌+◌, ◌≤◌, false, none, ◌∙◌, refl, ok, true, ◌==◌, Option, some, ◌≡◌, Bool, ℕ,
}

pub has_date :
    (now : ℕ) (published_at purchased_at : Option ℕ)
    → is_republish published_at purchased_at ≡ true
    → some (or_now now published_at) ≡ published_at
has_date now none purchased_at h = cc
has_date now (some t) purchased_at h = refl

first_trial-days :
    {now : ℕ} {i : Invitation} {e : Entitlements} {db : Db} {status : InvitationStatus}
    {as_trial : Bool} {term : PublicationTerm}
    → ever_reached i.id InvitationStatus.published db ≡ false
    → as_trial ≡ true
    → Grants now i e db status as_trial term
    → term ≡ days 3
first_trial-days unused free (bought newer lasts) = cc
first_trial-days unused free (resumed again running) = cc
first_trial-days unused free (first_trial never before) = refl
first_trial-days unused free (trial_resumed never used running) = cc

draft-is_running :
    {now : ℕ} {i : Invitation} {e : Entitlements} {db : Db} {status : InvitationStatus}
    {as_trial : Bool} {term : PublicationTerm}
    → ever_reached i.id InvitationStatus.published db ≡ true
    → status ≡ InvitationStatus.draft
    → Grants now i e db status as_trial term
    → is_running now i.expiry_date ≡ true
draft-is_running used back (bought newer lasts) = cc
draft-is_running used back (resumed again running) = running
draft-is_running used back (first_trial never before) = cc
draft-is_running used back (trial_resumed never again running) = running

draft-kept :
    {now : ℕ} {i : Invitation} {e : Entitlements} {db : Db} {status : InvitationStatus}
    {as_trial : Bool} {term : PublicationTerm}
    → ever_reached i.id InvitationStatus.published db ≡ true
    → status ≡ InvitationStatus.draft
    → Grants now i e db status as_trial term
    → term ≡ kept
draft-kept used back (bought newer lasts) = cc
draft-kept used back (resumed again running) = refl
draft-kept used back (first_trial never before) = cc
draft-kept used back (trial_resumed never again running) = refl

-- A free trial lasts three days, however often it is taken back and resumed: its first
-- publication dates the expiry three days on; and a draft whose history holds a publication, and
-- that still has that date, is published without moving it, and at most three days after the
-- trial began.
pub trial_ends :
    (add_months : ℕ → ℕ → ℕ) (scope now later : ℕ) (e e2 : Entitlements) (i i2 : Invitation)
    (db db2 : Db) (r r2 : PublishedDto × Db)
    → invitation_by_id i.id db ≡ some i
    → (i.owner_id == scope) ≡ true
    → ever_reached i.id InvitationStatus.published db ≡ false
    → publish_locked add_months scope now e i db ≡ ok r
    → r.0.trial ≡ true
    → invitation_by_id i2.id db2 ≡ some i2
    → (i2.owner_id == scope) ≡ true
    → i2.status ≡ InvitationStatus.draft
    → i2.expiry_date ≡ r.0.expiry_date
    → ever_reached i2.id InvitationStatus.published db2 ≡ true
    → publish_locked add_months scope later e2 i2 db2 ≡ ok r2
    → (r.0.expiry_date ≡ some (wib_day now + 3))
      × (r2.0.expiry_date ≡ r.0.expiry_date)
      × (wib_day later ≤ wib_day now + 3)
trial_ends add_months scope now later e e2 i i2 db db2 r r2 stored owned unused h free stored2
      owned2 back same_date used h2 =
    let (as_trial, term, g, same) =
      publish_locked-eq add_months scope now e i db stored owned r h in
    let (as_trial2, term2, g2, same2) =
      publish_locked-eq add_months scope later e2 i2 db2 stored2 owned2 r2 h2 in
    let as_free : as_trial ≡ true = sym (ap (λ p. p.0.trial) same) ∙ free in
    let three = first_trial-days unused as_free g in
    let until : i2.expiry_date ≡ some (wib_day now + 3) = same_date ∙ rw (same, three) refl in
    let running = draft-is_running used back g2 in
    let still = draft-kept used back g2 in
    (
      rw (same, three) refl,
      rw (same2, still) same_date,
      leb→le (wib_day later) (wib_day now + 3) (rw until at running),
    )
