-- ===== src/Publishing/Cleared.antt =====
-- The daily sweep expires what is overdue, each invitation once, and nothing else.
use mathlib.Core.Path.{ap, sym, subst}
use wedding_saas.Publishing.Overdue.{
  overdue_published-DistinctIds, is_overdue-Published, IsDue, overdue_published-IsDue, DistinctIds,
}
use wedding_saas.Status.Edges.{Permits}
use wedding_saas.Publishing.Publish.{notify_expired, invalidation}
use wedding_saas.Base.Table.{find-update_where, find-update_other}
use wedding_saas.Status.Laws.{transition_within-Permits_iff, changed}
use wedding_saas.Status.Service.{invitation_by_id}
use wedding_saas.Base.{
  All-both, true, ==_false_sym, All-map, length, All, refl, [], ==_refl, ◌∷◌, ◌∙◌, arith, ◌&&◌,
  ◌++◌, ◌+◌, some, false, ◌≡◌, ◌==◌, ℕ, List,
}
use wedding_saas.Publishing.Expiry.{
  is_overdue, overdue_published, expire_overdue_invitations, expiry_reason, by_system, Swept,
  expire_one, expire_all,
}
use wedding_saas.Db.{Invitation, Db}
use wedding_saas.Status.Rules.{same_status, InvitationStatus}
use wedding_saas.Status.Journey.{same_status_refl}

abbrev expired_db : Invitation → Db → Db
expired_db item db =
    changed item.id item.status InvitationStatus.expired by_system (some expiry_reason) db

abbrev pub IsLive : Db → Invitation → Type 0
IsLive db i = (invitation_by_id i.id db ≡ some i) × (i.status ≡ InvitationStatus.published)

-- The invitation's row says that it expired, and is otherwise what it was.
abbrev pub IsExpired : Db → Invitation → Type 0
IsExpired db i = invitation_by_id i.id db ≡ some (record i { status = InvitationStatus.expired })

expire_step :
    (item : Invitation) (s : Swept)
    → IsLive s.db item
    → expire_one item s ≡ record {
      expired_count = s.expired_count + 1;
      effects =
          s.effects
          ++ invalidation item.slug item.id
          ++ notify_expired item.id item.expiry_date ∷ [];
      db = expired_db item s.db;
    }
unfolding expire_one
expire_step item s (stored, public) =
    let moves =
      (transition_within-Permits_iff item.id InvitationStatus.expired by_system (some expiry_reason)
          s.db item stored).1
        (rw public Permits.expire) in
    rw (moves, expire_one) refl

read_other :
    (item : Invitation) (db : Db) (id : ℕ)
    → (item.id == id) ≡ false
    → invitation_by_id id (expired_db item db) ≡ invitation_by_id id db
read_other item db id other =
    find-update_other {A = Invitation} (λ j. j.id == id)
      (λ j. (j.id == item.id) && same_status j.status item.status)
      (λ j. record j { status = InvitationStatus.expired }) (λ j. refl) (λ j h. ground arith)
      db.invitations

read-IsExpired :
    (item : Invitation) (db : Db)
    → invitation_by_id item.id db ≡ some item
    → IsExpired (expired_db item db) item
read-IsExpired item db stored =
    find-update_where {A = Invitation} (λ j. j.id == item.id)
      (λ j. (j.id == item.id) && same_status j.status item.status)
      (λ j. record j { status = InvitationStatus.expired }) (λ j. refl) db.invitations
    ∙ rw stored (rw (==_refl item.id, same_status_refl item.status) refl)

expire_all-none : (s : Swept) → expire_all [] s ≡ s
unfolding expire_all
expire_all-none s = refl

expire_all-step :
    (item : Invitation) (items : List Invitation) (s : Swept)
    → expire_all (item ∷ items) s ≡ expire_all items (expire_one item s)
unfolding expire_all
expire_all-step item items s = refl

-- What the loop makes of its items.
abbrev AreExpired : List Invitation → Swept → Swept → Type 0
AreExpired items s r =
    (r.expired_count ≡ s.expired_count + length items)
    × All (IsExpired r.db) items
    × ((id : ℕ)
        → All (λ i. (i.id == id) ≡ false) items
        → invitation_by_id id r.db ≡ invitation_by_id id s.db)

expire_all-Expires :
    (items : List Invitation) (s : Swept)
    → DistinctIds items
    → All (IsLive s.db) items
    → AreExpired items s (expire_all items s)
expire_all-Expires [] s d live =
    subst (AreExpired [] s) (sym (expire_all-none s)) (omega arith, tt, λ id h. refl)
expire_all-Expires (item ∷ items) s (apart, d) (here, live) =
    let step = expire_step item s here in
    let s1 : Swept = record {
      expired_count = s.expired_count + 1;
      effects =
          s.effects
          ++ invalidation item.slug item.id
          ++ notify_expired item.id item.expiry_date ∷ [];
      db = expired_db item s.db;
    } in
    let still =
      All-map (λ j. IsLive s.db j × ((j.id == item.id) ≡ false)) (IsLive s1.db)
        (λ j ((stored, public), other).
          (read_other item s.db j.id (==_false_sym j.id item.id other) ∙ stored, public))
        items (All-both (IsLive s.db) (λ j. (j.id == item.id) ≡ false) items live apart) in
    let (counted, gone, others) = expire_all-Expires items s1 d still in
    subst (AreExpired (item ∷ items) s)
      (sym (expire_all-step item items s ∙ ap (expire_all items) step))
      (
        omega (arith, counted),
        (others item.id apart ∙ read-IsExpired item s.db here.0, gone),
        λ id (other, rest). others id rest ∙ read_other item s.db id other,
      )

-- With the ids of the invitations distinct, a sweep expires exactly what it lists, counts each once,
-- and leaves every other invitation as it was.
pub sweep-Expires :
    (limit now : ℕ) (db : Db)
    → DistinctIds db.invitations
    → let r = expire_overdue_invitations limit now db in
      let items = overdue_published limit now db in
      (r.expired_count ≡ length items)
      × All (λ i. (is_overdue now i ≡ true) × IsExpired r.db i) items
      × ((id : ℕ)
          → All (λ i. (i.id == id) ≡ false) items
          → invitation_by_id id r.db ≡ invitation_by_id id db)
unfolding expire_overdue_invitations
sweep-Expires limit now db distinct =
    let items = overdue_published limit now db in
    let due = overdue_published-IsDue limit now db distinct in
    let live =
      All-map (IsDue limit now db distinct) (IsLive db)
        (λ i (stored, late). (stored, is_overdue-Published now i late)) items due in
    let (counted, gone, others) =
      expire_all-Expires items (record { expired_count = 0; effects = []; db = db })
        (overdue_published-DistinctIds limit now db distinct) live in
    let late =
      All-map (IsDue limit now db distinct) (λ i. is_overdue now i ≡ true) (λ i h. h.1) items due in
    (
      omega (arith, counted),
      All-both (λ i. is_overdue now i ≡ true)
          (IsExpired (expire_all items (record { expired_count = 0; effects = []; db = db })).db)
          items late gone,
      others,
    )
