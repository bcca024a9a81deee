-- ===== src/Upload/Drained.antt =====
-- The end of a batch: every file is uploaded or has failed.
use wedding_saas.Upload.Covered.{
  after_all-Kept, IsNoCancel, has_run, is_active, happen-Kept, Covering, Kept,
}
use wedding_saas.Upload.Slots.{
  after_all-no_idle_slot, empty_queue, after_all, UploadEvent, uploads, polls, throws, happen-Sound,
  happen, Sound,
}
use wedding_saas.Base.{
  ◌+◌, ==_refl, ◌⊎◌, ◌∙◌, refl, inr, length, arith, true, some, none, inl, false, All, ◌≡◌, suc,
  ◌≤◌, ◌∷◌, find, count_if, [], Bool, ℕ, List,
}
use mathlib.Core.Path.{ap, subst, sym}
use wedding_saas.Upload.Queue.{
  failed, is_other, is_refused, run_of, ready, is_ready, is_queued, uploaded, Run, UploadItem,
  UploadQueue,
}
use wedding_saas.Upload.Endings.{
  times_out, deadline_of, breaks, refused, arrives, Ending, left_to_do, end_with,
  end_with-left_to_do,
}

abbrev pub is_ended : UploadItem → Bool
is_ended item = elim item.state [ ready ↦ true | failed ↦ true | _ ↦ false ]

queued-none : (items : List UploadItem) → find is_queued items ≡ none → count_if is_queued items ≡ 0
queued-none [] h = refl
queued-none (x ∷ xs) h = ground (arith, queued-none xs)

All-is_ended :
    (runs : List Run) (items : List UploadItem)
    → runs ≡ []
    → count_if is_queued items ≡ 0
    → All (Covering runs) items
    → All (λ item. is_ended item ≡ true) items
All-is_ended runs [] none_out none_queued h = tt
All-is_ended runs (x ∷ xs) none_out none_queued (h, hs) = (
  ended x (ground arith) (λ a. let k = subst (λ rs. has_run x.id rs ≡ true) none_out (h a) in cc),
  All-is_ended runs xs none_out (ground arith) hs,
)
  where
    ended : (y : UploadItem) → is_queued y ≡ false → (is_active y ≡ true → ⊥) → is_ended y ≡ true
    ended y waits idle = ground (arith, idle)

runs-cases : (runs : List Run) → (runs ≡ []) ⊎ ((r : Run) × (rs : List Run) × (runs ≡ r ∷ rs))
runs-cases [] = inl refl
runs-cases (r ∷ rs) = inr (r, rs, refl)

module _ (concurrency : ℕ) where
  -- The first run ends.
  abbrev pub finish_first : Ending → UploadQueue → UploadQueue
  finish_first e q = elim q.runs [ [] ↦ q | r ∷ rs ↦ end_with concurrency e r.id q ]

  unfoldable pub finish : List Ending → UploadQueue → UploadQueue
  finish [] q = q
  finish (e ∷ es) q = finish es (finish_first e q)

  abbrev Good : UploadQueue → Type 0
  Good q = Sound concurrency q × Kept q

  end_with-Good :
      (e : Ending) (id : ℕ) (q : UploadQueue) → Good q → Good (end_with concurrency e id q)
  unfolding happen
  end_with-Good breaks id q (s, k) =
      (happen-Sound concurrency (throws id) q s, happen-Kept concurrency (throws id) q tt k)
  end_with-Good (arrives media url now) id q (s, k) = (
    happen-Sound concurrency (polls id (is_ready url) now) (uploaded id media now q)
        (happen-Sound concurrency (uploads id media now) q s),
    happen-Kept concurrency (polls id (is_ready url) now) (uploaded id media now q) tt
        (happen-Kept concurrency (uploads id media now) q tt k),
  )
  end_with-Good (refused media now) id q (s, k) = (
    happen-Sound concurrency (polls id is_refused now) (uploaded id media now q)
        (happen-Sound concurrency (uploads id media now) q s),
    happen-Kept concurrency (polls id is_refused now) (uploaded id media now q) tt
        (happen-Kept concurrency (uploads id media now) q tt k),
  )
  end_with-Good (times_out media now late) id q (s, k) =
      let q' = uploaded id media now q in
      let at_end = deadline_of id q' + late in
      (
        happen-Sound concurrency (polls id is_other at_end) q'
            (happen-Sound concurrency (uploads id media now) q s),
        happen-Kept concurrency (polls id is_other at_end) q' tt
            (happen-Kept concurrency (uploads id media now) q tt k),
      )

  idle-done :
      (q : UploadQueue) → 1 ≤ concurrency → Sound concurrency q → q.runs ≡ [] → left_to_do q ≡ 0
  idle-done q slots (c, inl busy) idle =
      let e = rw idle at c.exact in absurd (omega (arith, e, busy, slots))
  idle-done q slots (c, inr waits) idle =
      omega (arith, queued-none q.items waits, ap (λ rs. length rs) idle)

  first_ends :
      (e : Ending) (q : UploadQueue) (r : Run) (rs : List Run)
      → q.runs ≡ r ∷ rs
      → (finish_first e q ≡ end_with concurrency e r.id q) × (run_of r.id q.runs ≡ some r)
  first_ends e q r rs out = (
    ap (λ l. elim l as (λ _. UploadQueue) [ [] ↦ q | x ∷ xs ↦ end_with concurrency e x.id q ]) out,
    ap (run_of r.id) out ∙ rw (==_refl r.id) refl,
  )

  none_ends : (e : Ending) (q : UploadQueue) → q.runs ≡ [] → finish_first e q ≡ q
  none_ends e q out =
      ap (λ l. elim l as (λ _. UploadQueue) [ [] ↦ q | x ∷ xs ↦ end_with concurrency e x.id q ]) out

  abbrev Within : ℕ → UploadQueue → Type 0
  Within n q = Good q × (left_to_do q ≤ n)

  finish_first-Within :
      (e : Ending) (q : UploadQueue) (n : ℕ)
      → 1 ≤ concurrency
      → Within (suc n) q
      → Within n (finish_first e q)
  finish_first-Within e q n slots (g, h) = elim (runs-cases q.runs) [
    | inl idle ↦
        subst (Within n) (sym (none_ends e q idle)) (g, omega (arith, idle-done q slots g.0 idle))
    | inr (r, rs, out) ↦
        let (ends, found) = first_ends e q r rs out in
        subst (Within n) (sym ends) (
          end_with-Good e r.id q g,
          omega (arith, h, end_with-left_to_do concurrency e r.id q r g.1 found),
        )
  ]

  finish-Within :
      (es : List Ending) (q : UploadQueue)
      → 1 ≤ concurrency
      → Within (length es) q
      → Within 0 (finish es q)
  unfolding finish
  finish-Within [] q slots w = w
  finish-Within (e ∷ es) q slots w =
      finish-Within es (finish_first e q) slots (finish_first-Within e q (length es) slots w)

no_runs : (runs : List Run) → length runs ≡ 0 → runs ≡ []
no_runs [] h = refl
no_runs (r ∷ rs) h = cc

-- With at least one slot, and with nothing cancelled: from every state that the queue can come to,
-- as many endings of first runs as there are items waiting and runs out, each by a throw, an answer
-- that the file is ready or refused, or the deadline of its polls, leave no run, and every file ready or failed.
pub finish-drains :
    (concurrency : ℕ) (events : List UploadEvent) (endings : List Ending)
    → 1 ≤ concurrency
    → All IsNoCancel events
    → left_to_do (after_all concurrency events empty_queue) ≤ length endings
    → (let t = finish concurrency endings (after_all concurrency events empty_queue) in
        (t.runs ≡ []) × All (λ item. is_ended item ≡ true) t.items)
finish-drains concurrency events endings slots goes_on enough =
    let q = after_all concurrency events empty_queue in
    let s = after_all-no_idle_slot concurrency events in
    let k =
      after_all-Kept concurrency events empty_queue goes_on
        (record { covered = tt; unaborted = tt }) in
    let ((s', k'), h) = finish-Within concurrency endings q slots ((s, k), enough) in
    let t = finish concurrency endings q in
    let out = no_runs t.runs (omega (arith, h)) in
    (out, All-is_ended t.runs t.items out (omega (arith, h)) k'.covered)
