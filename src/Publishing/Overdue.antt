-- ===== src/Publishing/Overdue.antt =====
-- What the daily query lists: rows that are due, each once.
use wedding_saas.Publishing.Resumed.{is_published}
use wedding_saas.Status.Rules.{InvitationStatus}
use wedding_saas.Status.Service.{invitation_by_id}
use wedding_saas.Publishing.Expiry.{
  overdue_published, is_overdue, day_of, insert_by_expiry, by_expiry,
}
use wedding_saas.Db.{Db, Invitation}
use wedding_saas.Base.{
  All-keep_of, true, arith, refl, All-both, ==_false_sym, All-map, zero, inr, ==_refl, some, false,
  All-keep, ◌≡◌, leb, inl, All-take, ◌==◌, suc, keep, find, [], Bool-cases, ◌∷◌, take, Bool, All, ℕ,
  List,
}

-- No two rows of one id: the table's primary key.
abbrev pub DistinctIds : List Invitation → Type 0
DistinctIds [] = Unit
DistinctIds (i ∷ is) = All (λ j. (j.id == i.id) ≡ false) is × DistinctIds is

module _ {κ} (P : Invitation → Type κ) where
  All-insert_by_expiry :
      (i : Invitation) (js : List Invitation) → P i → All P js → All P (insert_by_expiry i js)
  unfolding insert_by_expiry
  All-insert_by_expiry i [] h hs = (h, tt)
  All-insert_by_expiry i (j ∷ js) h (k, ks) =
      elim (Bool-cases (leb (day_of i.expiry_date) (day_of j.expiry_date))) [
        | inl before ↦ rw before (h, (k, ks))
        | inr later ↦ rw later (k, All-insert_by_expiry i js h ks)
      ]

  All-by_expiry : (is : List Invitation) → All P is → All P (by_expiry is)
  unfolding by_expiry
  All-by_expiry [] h = tt
  All-by_expiry (i ∷ is) (h, hs) = All-insert_by_expiry i (by_expiry is) h (All-by_expiry is hs)

insert-DistinctIds :
    (i : Invitation) (js : List Invitation)
    → All (λ j. (j.id == i.id) ≡ false) js
    → DistinctIds js
    → DistinctIds (insert_by_expiry i js)
unfolding insert_by_expiry
insert-DistinctIds i [] h d = (tt, tt)
insert-DistinctIds i (j ∷ js) (h, hs) (k, ks) =
    elim (Bool-cases (leb (day_of i.expiry_date) (day_of j.expiry_date))) [
      | inl before ↦ rw before ((h, hs), (k, ks))
      | inr later ↦ rw later (
        All-insert_by_expiry (λ m. (m.id == j.id) ≡ false) i js (==_false_sym j.id i.id h) k,
        insert-DistinctIds i js hs ks,
      )
    ]

by_expiry-DistinctIds : (is : List Invitation) → DistinctIds is → DistinctIds (by_expiry is)
unfolding by_expiry
by_expiry-DistinctIds [] d = tt
by_expiry-DistinctIds (i ∷ is) (h, d) =
    insert-DistinctIds i (by_expiry is) (All-by_expiry (λ j. (j.id == i.id) ≡ false) is h)
      (by_expiry-DistinctIds is d)

pub keep-DistinctIds :
    (p : Invitation → Bool) (is : List Invitation) → DistinctIds is → DistinctIds (keep p is)
keep-DistinctIds p [] d = tt
keep-DistinctIds p (i ∷ is) (h, d) = elim (Bool-cases (p i)) [
  | inl kept ↦ rw kept (All-keep (λ j. (j.id == i.id) ≡ false) p is h, keep-DistinctIds p is d)
  | inr dropped ↦ rw dropped (keep-DistinctIds p is d)
]

take-DistinctIds : (n : ℕ) (is : List Invitation) → DistinctIds is → DistinctIds (take n is)
take-DistinctIds zero is d = tt
take-DistinctIds (suc n) [] d = tt
take-DistinctIds (suc n) (i ∷ is) (h, d) =
    (All-take (λ j. (j.id == i.id) ≡ false) n is h, take-DistinctIds n is d)

-- With distinct ids, each row is the one that its id reads.
read-own :
    (is : List Invitation) → DistinctIds is → All (λ i. find (λ j. j.id == i.id) is ≡ some i) is
read-own [] d = tt
read-own (i ∷ is) (h, d) = (
  rw (==_refl i.id) refl,
  All-map (λ j. (find (λ k. k.id == j.id) is ≡ some j) × ((j.id == i.id) ≡ false))
      (λ j. find (λ k. k.id == j.id) (i ∷ is) ≡ some j)
      (λ j (own, other). rw (==_false_sym j.id i.id other) own) is
      (All-both (λ j. find (λ k. k.id == j.id) is ≡ some j) (λ j. (j.id == i.id) ≡ false) is
        (read-own is d) h),
)

-- What an overdue invitation is.
pub is_overdue-Published :
    (now : ℕ) (i : Invitation) → is_overdue now i ≡ true → i.status ≡ InvitationStatus.published
is_overdue-Published now i h = is_published i.status (ground arith)

module _ (limit now : ℕ) (db : Db) (distinct : DistinctIds db.invitations) where
  pub overdue_published-DistinctIds : DistinctIds (overdue_published limit now db)
  unfolding overdue_published
  overdue_published-DistinctIds =
      take-DistinctIds limit (by_expiry (keep (is_overdue now) db.invitations)) (
        by_expiry-DistinctIds (keep (is_overdue now) db.invitations)
          (keep-DistinctIds (is_overdue now) db.invitations distinct))

  abbrev pub IsDue : Invitation → Type 0
  IsDue i = (invitation_by_id i.id db ≡ some i) × (is_overdue now i ≡ true)

  pub overdue_published-IsDue : All IsDue (overdue_published limit now db)
  unfolding overdue_published
  overdue_published-IsDue =
      All-take IsDue limit (by_expiry (keep (is_overdue now) db.invitations)) (
        All-by_expiry IsDue (keep (is_overdue now) db.invitations) (
          All-both (λ i. invitation_by_id i.id db ≡ some i) (λ i. is_overdue now i ≡ true)
            (keep (is_overdue now) db.invitations)
            (All-keep (λ i. invitation_by_id i.id db ≡ some i) (is_overdue now) db.invitations
              (read-own db.invitations distinct))
            (All-keep_of (is_overdue now) db.invitations)))
