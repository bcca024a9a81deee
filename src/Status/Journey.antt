-- ===== src/Status/Journey.antt =====
-- The audit trail: the history rows of an invitation form one journey, which ends in its status.
use wedding_saas.Status.Service.{history_row, invitation_by_id, transition_within}
use wedding_saas.Status.Laws.{change-eq, changed}
use wedding_saas.Status.Rules.{Actor, draft, InvitationStatus, same_status}
use wedding_saas.Base.{
  Option-cases, ok, String, ==_refl, ==_false_sym, sym, ◌∙◌, ap, ==_iff, inr, inl, find, Bool-cases,
  ◌&&◌, ℕ, true, false, Option, none, some, List, [], ◌∷◌, ◌++◌, ◌≡◌, refl, arith, All, ◌==◌,
  if◌then◌else◌,
}
use wedding_saas.Base.Table.{update_where}
use wedding_saas.Db.{Db, Invitation, HistoryRow}

-- The status that an invitation's latest history row holds.
abbrev latest_from : ℕ → Option InvitationStatus → List HistoryRow → Option InvitationStatus
latest_from id status [] = status
latest_from id status (h ∷ hs) =
    latest_from id (if h.invitation_id == id then some h.to_status else status) hs

abbrev pub latest : ℕ → List HistoryRow → Option InvitationStatus
latest id history = latest_from id none history

-- Each row starts where the invitation's previous row ended; only a creation starts from nothing.
pub data Chained : List HistoryRow → Type 0 where
  empty : Chained []
  extended :
      {before after : List HistoryRow} (row : HistoryRow)
      → Chained before
      → row.from_status ≡ latest row.invitation_id before
      → after ≡ before ++ row ∷ []
      → Chained after

pub record IsConsistent (db : Db) : Type 0 where
  pub chained : Chained db.history
  pub current : All (λ i. latest i.id db.history ≡ some i.status) db.invitations

latest_from-append :
    (id : ℕ) (status : Option InvitationStatus) (hs : List HistoryRow) (row : HistoryRow)
    → latest_from id status (hs ++ row ∷ [])
      ≡ (if row.invitation_id == id then some row.to_status else latest_from id status hs)
latest_from-append id status [] row = refl
latest_from-append id status (h ∷ hs) row =
    latest_from-append id (if h.invitation_id == id then some h.to_status else status) hs row

latest-append :
    (id : ℕ) (hs : List HistoryRow) (row : HistoryRow)
    → latest id (hs ++ row ∷ [])
      ≡ (if row.invitation_id == id then some row.to_status else latest id hs)
latest-append id hs row = latest_from-append id none hs row

-- A stored invitation is in its latest status.
latest_of_found :
    (id : ℕ) (hs : List HistoryRow) (rows : List Invitation) (i : Invitation)
    → All (λ j. latest j.id hs ≡ some j.status) rows
    → find (λ j. j.id == id) rows ≡ some i
    → latest id hs ≡ some i.status
latest_of_found id hs [] i all found = cc
latest_of_found id hs (r ∷ rows) i (here, rest) found = elim (Bool-cases (r.id == id)) [
  | inl same ↦
      let e = (==_iff r.id id).0 same in
      let there : latest id hs ≡ some r.status = rw e at here in
      let it : r ≡ i = ground arith in rw (← it) there
  | inr other ↦ latest_of_found id hs rows i rest (rw other at found)
]

pub same_status_refl : (s : InvitationStatus) → same_status s s ≡ true
same_status_refl draft = refl
same_status_refl _ = refl

-- One row of the status update.
row_moved :
    (id : ℕ) (from to : InvitationStatus) (hs hs' : List HistoryRow)
    → latest id hs ≡ some from
    → latest id hs' ≡ some to
    → ((j : ℕ) → (j == id) ≡ false → latest j hs' ≡ latest j hs)
    → (r : Invitation) → latest r.id hs ≡ some r.status
    → let r' = if (r.id == id) && same_status r.status from then record r { status = to } else r in
      latest r'.id hs' ≡ some r'.status
row_moved id from to hs hs' was now others r here = elim (Bool-cases (r.id == id)) [
  | inl same ↦
      let e = (==_iff r.id id).0 same in
      let there : latest id hs ≡ some r.status = rw e at here in
      let st : r.status ≡ from = cc in
      let moved : latest r.id hs' ≡ some to = rw e now in
      let test : same_status r.status from ≡ true =
        ap (λ x. same_status x from) st ∙ same_status_refl from in
      rw (same, test) moved
  | inr other ↦ rw other (others r.id other ∙ here)
]

module _ (id : ℕ) (from to : InvitationStatus) (hs hs' : List HistoryRow)
    (was : latest id hs ≡ some from) (now : latest id hs' ≡ some to)
    (others : (j : ℕ) → (j == id) ≡ false → latest j hs' ≡ latest j hs) where
  current_of_update :
      (rows : List Invitation)
      → All (λ i. latest i.id hs ≡ some i.status) rows
      → All
          (λ i. latest i.id hs' ≡ some i.status)
          (update_where
            (λ i. (i.id == id) && same_status i.status from)
            (λ i. record i { status = to })
            rows)
  current_of_update [] all = tt
  current_of_update (r ∷ rows) (here, rest) =
      (row_moved id from to hs hs' was now others r here, current_of_update rows rest)

changed-IsConsistent :
    (id : ℕ) (from to : InvitationStatus) (actor : Actor) (reason : Option String) (db : Db)
    → IsConsistent db
    → latest id db.history ≡ some from
    → IsConsistent (changed id from to actor reason db)
changed-IsConsistent id from to actor reason db c was =
    let row = history_row id from to actor reason in
    record {
      chained = extended row c.chained (sym was) refl;
      current =
          current_of_update id from to db.history (db.history ++ row ∷ []) was
            (latest-append id db.history row ∙ rw (==_refl id))
            (λ j ne. latest-append j db.history row ∙ rw (==_false_sym j id ne)) db.invitations
            c.current;
    }

-- Every transition that succeeds keeps the audit trail consistent: each history row starts in the
-- status where the invitation's previous row ended, and each invitation is in the status of its
-- latest row.
pub transition_within-IsConsistent :
    (id : ℕ) (to : InvitationStatus) (actor : Actor) (reason : Option String) (db db' : Db)
    {r : InvitationStatus × InvitationStatus}
    → IsConsistent db
    → transition_within id to actor reason db ≡ ok (r, db')
    → IsConsistent db'
unfolding transition_within
transition_within-IsConsistent id to actor reason db db' c h =
    elim (Option-cases (invitation_by_id id db)) [
      | inl missing ↦ let k = rw (missing, transition_within) at h in cc
      | inr (i, found) ↦
          let moved =
            change-eq i.status to actor id reason db (rw (found, transition_within) at h) in
          rw moved.1 (
            changed-IsConsistent id i.status to actor reason db c
              (latest_of_found id db.history db.invitations i c.current found))
    ]
