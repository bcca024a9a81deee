-- ===== src/Upload/Pumped.antt =====
-- A pump fills the free slots.
use wedding_saas.Base.{
  Bool, ==_refl, zero, refl, Option-cases, inl, [], ◌∷◌, ltb, length-append, some, none, inr, false,
  arith, Bool-cases, ◌⊎◌, suc, length, find, count_if, ◌≤◌, ◌≡◌, ◌<◌, ℕ, List,
}
use mathlib.Core.Path.{ap, subst, sym}
use wedding_saas.Upload.Queue.{
  pump, next_to_start, set_uploading, update_items, start, is_queued, pump_with, UploadItem,
  UploadQueue,
}

-- The counter counts the runs, and there are not more than the cap.
pub record Counted (concurrency : ℕ) (q : UploadQueue) : Type 0 where
  pub exact : q.running ≡ length q.runs
  pub capped : q.running ≤ concurrency

-- No item waits while a slot is free.
abbrev pub Full : ℕ → UploadQueue → Type 0
Full concurrency q = (concurrency ≤ q.running) ⊎ (find is_queued q.items ≡ none)

pub queued-update :
    (id : ℕ) (patch : UploadItem → UploadItem)
    → ((item : UploadItem) → is_queued (patch item) ≡ false)
    → (items : List UploadItem)
    → count_if is_queued (update_items id patch items) ≤ count_if is_queued items
queued-update id patch h [] = omega arith
queued-update id patch h (x ∷ xs) = ground (arith, h x, queued-update id patch h xs)

pub find-none-update :
    (id : ℕ) (patch : UploadItem → UploadItem)
    → ((item : UploadItem) → is_queued item ≡ false → is_queued (patch item) ≡ false)
    → (items : List UploadItem) → find is_queued items ≡ none
    → find is_queued (update_items id patch items) ≡ none
find-none-update id patch h [] none_queued = refl
find-none-update id patch h (x ∷ xs) none_queued =
    ground (arith, h x, find-none-update id patch h xs)

pub queued-start :
    (items : List UploadItem) (next : UploadItem)
    → find is_queued items ≡ some next
    → suc (count_if is_queued (update_items next.id set_uploading items)) ≤ count_if is_queued items
queued-start [] next h = cc
queued-start (x ∷ xs) next h = elim (Bool-cases (is_queued x)) [
  | inl waits ↦
      let same : x ≡ next = ground (arith, waits, h) in
      subst
        (λ n.
          suc (count_if is_queued (update_items n.id set_uploading (x ∷ xs)))
          ≤ count_if is_queued (x ∷ xs))
        same (ground (arith, waits, ==_refl x.id, queued-update x.id set_uploading (λ i. refl) xs))
  | inr other ↦ ground (arith, other, queued-start xs next)
]

queued-zero : (items : List UploadItem) → count_if is_queued items ≡ 0 → find is_queued items ≡ none
queued-zero [] h = refl
queued-zero (x ∷ xs) h = ground (arith, queued-zero xs)

count_if-le : {A : Type 0} (p : A → Bool) (xs : List A) → count_if p xs ≤ length xs
count_if-le p [] = omega arith
count_if-le p (x ∷ xs) = ground (arith, count_if-le p xs)

module _ (concurrency : ℕ) where
  start-Counted :
      (id : ℕ) (q : UploadQueue)
      → Counted concurrency q
      → q.running < concurrency
      → Counted concurrency (start id q)
  start-Counted id q h below = record {
    exact = omega (
      arith,
      h.exact,
      length-append q.runs (record { id = id; aborted = false; awaiting = none } ∷ []),
    );
    capped = omega (arith, below);
  }

  pump_with-idle :
      (n : ℕ) (q : UploadQueue)
      → next_to_start concurrency q ≡ none
      → pump_with concurrency (suc n) q ≡ q
  unfolding pump_with
  pump_with-idle n q idle =
      ap
        (λ o. elim o as (λ _. UploadQueue) [
          | none ↦ q
          | some next ↦ pump_with concurrency n (start next.id q)
        ])
        idle

  pump_with-next :
      (n : ℕ) (q : UploadQueue) (next : UploadItem)
      → next_to_start concurrency q ≡ some next
      → pump_with concurrency (suc n) q ≡ pump_with concurrency n (start next.id q)
  unfolding pump_with
  pump_with-next n q next waits =
      ap
        (λ o. elim o as (λ _. UploadQueue) [
          | none ↦ q
          | some item ↦ pump_with concurrency n (start item.id q)
        ])
        waits

  next-free :
      (q : UploadQueue) (next : UploadItem)
      → next_to_start concurrency q ≡ some next
      → (q.running < concurrency) × (find is_queued q.items ≡ some next)
  next-free q next h = ground arith

  idle-Full : (q : UploadQueue) → next_to_start concurrency q ≡ none → Full concurrency q
  idle-Full q h = elim (Bool-cases (ltb q.running concurrency)) [
    | inl free ↦ inr (rw free at h)
    | inr none_free ↦ inl (ground arith)
  ]

  -- What every start keeps holds after the pump.
  pub pump_with-keeps :
      (P : UploadQueue → Type 0)
      → ((q : UploadQueue) (next : UploadItem)
          → q.running < concurrency
          → find is_queued q.items ≡ some next
          → P q
          → P (start next.id q))
      → (n : ℕ) (q : UploadQueue) → P q
      → P (pump_with concurrency n q)
  unfolding pump_with
  pump_with-keeps P step zero q p = p
  pump_with-keeps P step (suc n) q p = elim (Option-cases (next_to_start concurrency q)) [
    | inl idle ↦ subst P (sym (pump_with-idle n q idle)) p
    | inr (next, waits) ↦
        let (free, first) = next-free q next waits in
        subst P (sym (pump_with-next n q next waits))
          (pump_with-keeps P step n (start next.id q) (step q next free first p))
  ]

  pub pump_with-Full :
      (n : ℕ) (q : UploadQueue)
      → count_if is_queued q.items ≤ n
      → Full concurrency (pump_with concurrency n q)
  unfolding pump_with
  pump_with-Full zero q h = inr (queued-zero q.items (omega arith))
  pump_with-Full (suc n) q h = elim (Option-cases (next_to_start concurrency q)) [
    | inl idle ↦ subst (Full concurrency) (sym (pump_with-idle n q idle)) (idle-Full q idle)
    | inr (next, waits) ↦
        let (free, first) = next-free q next waits in
        subst (Full concurrency) (sym (pump_with-next n q next waits))
          (pump_with-Full n (start next.id q) (omega (arith, h, queued-start q.items next first)))
  ]

  pub pump-Counted :
      (q : UploadQueue) → Counted concurrency q → Counted concurrency (pump concurrency q)
  pump-Counted q h =
      pump_with-keeps (Counted concurrency) (λ q next free first c. start-Counted next.id q c free)
        (length q.items) q h

  pub pump-Full : (q : UploadQueue) → Full concurrency (pump concurrency q)
  pump-Full q = pump_with-Full (length q.items) q (count_if-le is_queued q.items)
