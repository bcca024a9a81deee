-- ===== src/Status/Frame.antt =====
-- What a transition leaves alone.
use wedding_saas.Status.Laws.{change-eq}
use wedding_saas.Status.Rules.{Actor, InvitationStatus}
use wedding_saas.Base.{refl, inr, inl, Option-cases, ok, String, Option, ◌≡◌, ℕ}
use wedding_saas.Status.Service.{invitation_by_id, transition_within}
use wedding_saas.Db.{Db}

pub record SameBut (db db' : Db) : Type 0 where
  pub orders : db'.orders ≡ db.orders
  pub packages : db'.packages ≡ db.packages
  pub addons : db'.addons ≡ db.addons
  pub payments : db'.payments ≡ db.payments
  pub notifications : db'.notifications ≡ db.notifications

pub transition_within-SameBut :
    (id : ℕ) (to : InvitationStatus) (actor : Actor) (reason : Option String) (db db' : Db)
    {r : InvitationStatus × InvitationStatus}
    → transition_within id to actor reason db ≡ ok (r, db')
    → SameBut db db'
unfolding transition_within
transition_within-SameBut id to actor reason db db' h =
    elim (Option-cases (invitation_by_id id db)) [
      | inl missing ↦ let k = rw (missing, transition_within) at h in cc
      | inr (i, found) ↦
          let moved =
            change-eq i.status to actor id reason db (rw (found, transition_within) at h) in
          rw moved.1 (record {
            orders = refl;
            packages = refl;
            addons = refl;
            payments = refl;
            notifications = refl;
          })
    ]
