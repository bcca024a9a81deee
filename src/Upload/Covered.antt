-- ===== src/Upload/Covered.antt =====
-- Every item that uploads or is processed has its run, while nothing is cancelled.
use wedding_saas.Upload.Pumped.{pump_with-keeps}
use wedding_saas.Base.{
  some_injective, min, leb, ==_iff, ◌∙◌, any-append, ◌-◌, zero, refl, inr, All-append, ◌+◌, none,
  length, inl, find, arith, ◌++◌, true, suc, false, any, [], Option-cases, Bool-cases, ◌≡◌, ◌∷◌,
  ◌==◌, map, Bool, ℕ, some, List, All,
}
use mathlib.Core.Path.{subst}
use wedding_saas.Upload.Queue.{
  is_other, processing, uploading, is_refused, too_slow, set_queued, update, not_uploaded,
  not_processable, set_processing, set_failed, is_failed, set_uploading, set_ready, update_items,
  is_ready, end_as, progressed, poll_answered, await_ready, uploaded, throw_run, start, run_of,
  retry, remove_run, pump, polled, new_items, add, PollAnswer, UploadItem, Run, UploadQueue,
}
use wedding_saas.Upload.Slots.{
  throws, polls, uploads, progresses, retries, adds, cancels, UploadEvent, happen, after_all,
}

abbrev pub is_active : UploadItem → Bool
is_active item = elim item.state [ uploading ↦ true | processing ↦ true | _ ↦ false ]

abbrev pub has_run : ℕ → List Run → Bool
has_run id runs = any (λ r. r.id == id) runs

abbrev pub Covering : List Run → UploadItem → Type 0
Covering runs item = is_active item ≡ true → has_run item.id runs ≡ true

abbrev pub Unaborted : Run → Type 0
Unaborted r = r.aborted ≡ false

pub record Kept (q : UploadQueue) : Type 0 where
  pub covered : All (Covering q.runs) q.items
  pub unaborted : All Unaborted q.runs

All-update :
    (P Q : UploadItem → Type 0) (id : ℕ) (patch : UploadItem → UploadItem)
    → ((x : UploadItem) → (x.id == id) ≡ true → P x → Q (patch x))
    → ((x : UploadItem) → (x.id == id) ≡ false → P x → Q x)
    → (xs : List UploadItem) → All P xs
    → All Q (update_items id patch xs)
All-update P Q id patch on off [] h = tt
All-update P Q id patch on off (x ∷ xs) (h, hs) = elim (Bool-cases (x.id == id)) [
  | inl same ↦ rw same (on x same h, All-update P Q id patch on off xs hs)
  | inr other ↦ rw other (off x other h, All-update P Q id patch on off xs hs)
]

has_run-remove_run :
    (id n : ℕ) (runs : List Run)
    → (n == id) ≡ false
    → has_run n (remove_run id runs) ≡ has_run n runs
has_run-remove_run id n [] h = refl
has_run-remove_run id n (x ∷ xs) h = ground (arith, has_run-remove_run id n xs h)

All-remove_run :
    (P : Run → Type 0) (id : ℕ) (runs : List Run) → All P runs → All P (remove_run id runs)
All-remove_run P id [] h = tt
All-remove_run P id (x ∷ xs) (h, hs) = elim (Bool-cases (x.id == id)) [
  | inl same ↦ rw same hs
  | inr other ↦ rw other (h, All-remove_run P id xs hs)
]

has_run-await_ready :
    (id media now n : ℕ) (runs : List Run)
    → has_run n (map (await_ready id media now) runs) ≡ has_run n runs
has_run-await_ready id media now n [] = refl
has_run-await_ready id media now n (x ∷ xs) = ground (arith, has_run-await_ready id media now n xs)

Unaborted-await_ready :
    (id media now : ℕ) (runs : List Run)
    → All Unaborted runs
    → All Unaborted (map (await_ready id media now) runs)
Unaborted-await_ready id media now [] h = tt
Unaborted-await_ready id media now (x ∷ xs) (h, hs) =
    (ground arith, Unaborted-await_ready id media now xs hs)

pub run_of-has_run :
    (id : ℕ) (runs : List Run) (r : Run) → run_of id runs ≡ some r → has_run id runs ≡ true
run_of-has_run id [] r h = cc
run_of-has_run id (x ∷ xs) r h = ground (arith, run_of-has_run id xs r)

pub All-run_of :
    (P : Run → Type 0) (id : ℕ) (runs : List Run) (r : Run)
    → run_of id runs ≡ some r
    → All P runs
    → P r
All-run_of P id [] r h k = cc
All-run_of P id (x ∷ xs) r h (k, ks) = elim (Bool-cases (x.id == id)) [
  | inl same ↦ let e = rw same at h in subst P (some_injective e) k
  | inr other ↦ All-run_of P id xs r (rw other at h) ks
]

start-Kept : (id : ℕ) (q : UploadQueue) → Kept q → Kept (start id q)
start-Kept id q h = record {
  covered =
      All-update (Covering q.runs)
        (Covering (q.runs ++ record { id = id; aborted = false; awaiting = none } ∷ [])) id
        set_uploading
        (λ x same k a.
          any-append (λ r. r.id == x.id) q.runs
            (record { id = id; aborted = false; awaiting = none } ∷ [])
          ∙ ground (arith, same))
        (λ x other k a.
          any-append (λ r. r.id == x.id) q.runs
            (record { id = id; aborted = false; awaiting = none } ∷ [])
          ∙ ground (arith, k a))
        q.items h.covered;
  unaborted =
      All-append Unaborted q.runs (record { id = id; aborted = false; awaiting = none } ∷ [])
        h.unaborted (refl, tt);
}

abbrev pub IsNoCancel : UploadEvent → Type 0
IsNoCancel cancels = ⊥
IsNoCancel _ = Unit

module _ (concurrency : ℕ) where
  pump-Kept : (q : UploadQueue) → Kept q → Kept (pump concurrency q)
  pump-Kept q h =
      pump_with-keeps concurrency Kept (λ p next free first k. start-Kept next.id p k)
        (length q.items) q h

  -- An item whose run ends is not active any more.
  end_as-Kept :
      (id : ℕ) (patch : UploadItem → UploadItem) (q : UploadQueue)
      → ((item : UploadItem) → is_active (patch item) ≡ false)
      → Kept q
      → Kept (end_as concurrency id patch q)
  end_as-Kept id patch q inactive h =
      pump-Kept
        (record q {
          items = update_items id patch q.items;
          running = q.running - 1;
          runs = remove_run id q.runs;
        })
        (record {
          covered =
              All-update (Covering q.runs) (Covering (remove_run id q.runs)) id patch
                (λ x same k a. absurd (ground (arith, inactive x, a)))
                (λ x other k a. has_run-remove_run id x.id q.runs other ∙ k a) q.items h.covered;
          unaborted = All-remove_run Unaborted id q.runs h.unaborted;
        })

  throw_run-Kept : (id : ℕ) (q : UploadQueue) → Kept q → Kept (throw_run concurrency id q)
  unfolding throw_run
  throw_run-Kept id q h = elim (Option-cases (run_of id q.runs)) [
    | inl none_such ↦ rw (none_such, throw_run) h
    | inr (r, found) ↦
        rw (found, throw_run)
          (rw (All-run_of Unaborted id q.runs r found h.unaborted)
            (end_as-Kept id (set_failed not_uploaded) q (λ item. refl) h))
  ]

  poll_answered-Kept :
      (id deadline now : ℕ) (answer : PollAnswer) (q : UploadQueue)
      → Kept q
      → Kept (poll_answered concurrency id deadline answer now q)
  poll_answered-Kept id deadline now (is_ready url) q h =
      end_as-Kept id (set_ready url) q (λ item. refl) h
  poll_answered-Kept id deadline now is_refused q h =
      end_as-Kept id (set_failed not_processable) q (λ item. refl) h
  poll_answered-Kept id deadline now is_other q h = elim (Bool-cases (leb deadline now)) [
    | inl late ↦ rw late (end_as-Kept id (set_failed too_slow) q (λ item. refl) h)
    | inr early ↦ rw early h
  ]

  polled-Kept :
      (id : ℕ) (answer : PollAnswer) (now : ℕ) (q : UploadQueue)
      → Kept q
      → Kept (polled concurrency id answer now q)
  unfolding polled
  polled-Kept id answer now q h = elim (Option-cases (run_of id q.runs)) [
    | inl none_such ↦ rw (none_such, polled) h
    | inr (r, found) ↦ elim (Option-cases r.awaiting) [
      | inl sends ↦ rw (found, polled) (rw sends h)
      | inr ((media, deadline), waits) ↦
          rw (found, polled) (rw waits (poll_answered-Kept id deadline now answer q h))
    ]
  ]

  uploaded-Kept : (id media now : ℕ) (q : UploadQueue) → Kept q → Kept (uploaded id media now q)
  unfolding uploaded
  uploaded-Kept id media now q h = elim (Option-cases (run_of id q.runs)) [
    | inl none_such ↦ rw (none_such, uploaded) h
    | inr (r, found) ↦ elim (Option-cases r.awaiting) [
      | inr (poll, waits) ↦ rw (found, uploaded) (rw waits h)
      | inl sends ↦
          rw (found, uploaded)
            (rw sends (record {
              covered =
                  All-update (Covering q.runs) (Covering (map (await_ready id media now) q.runs)) id
                    (set_processing media)
                    (λ x same k a.
                      has_run-await_ready id media now x.id q.runs
                      ∙ rw ((==_iff x.id id).0 same) (run_of-has_run id q.runs r found))
                    (λ x other k a. has_run-await_ready id media now x.id q.runs ∙ k a) q.items
                    h.covered;
              unaborted = Unaborted-await_ready id media now q.runs h.unaborted;
            }))
    ]
  ]

  retry-Kept : (id : ℕ) (q : UploadQueue) → Kept q → Kept (retry concurrency id q)
  unfolding retry
  retry-Kept id q h = elim (Option-cases (find (λ item. item.id == id) q.items)) [
    | inl none_such ↦ rw (none_such, retry) h
    | inr (item, found) ↦ elim (Bool-cases (is_failed item)) [
      | inr other ↦ rw (found, retry) (rw other h)
      | inl again ↦
          rw (found, retry)
            (rw again (
              pump-Kept (update id set_queued q) (record {
                covered =
                    All-update (Covering q.runs) (Covering q.runs) id set_queued (λ x same k a. cc)
                      (λ x other k a. k a) q.items h.covered;
                unaborted = h.unaborted;
              })))
    ]
  ]

  new_items-Covering : (runs : List Run) (counter n : ℕ) → All (Covering runs) (new_items counter n)
  new_items-Covering runs counter zero = tt
  new_items-Covering runs counter (suc n) = (λ a. cc, new_items-Covering runs (counter + 1) n)

  pub happen-Kept :
      (e : UploadEvent) (q : UploadQueue) → IsNoCancel e → Kept q → Kept (happen concurrency e q)
  unfolding happen add progressed
  happen-Kept (adds files) q ok_ h =
      pump-Kept
        (record q { items = q.items ++ new_items q.counter files; counter = q.counter + files })
        (record {
          covered =
              All-append (Covering q.runs) q.items (new_items q.counter files) h.covered
                (new_items-Covering q.runs q.counter files);
          unaborted = h.unaborted;
        })
  happen-Kept (retries id) q ok_ h = retry-Kept id q h
  happen-Kept (progresses id percent) q ok_ h = record {
    covered =
        All-update (Covering q.runs) (Covering q.runs) id
          (λ item. record item { progress = min 100 percent }) (λ x same k a. k a)
          (λ x other k a. k a) q.items h.covered;
    unaborted = h.unaborted;
  }
  happen-Kept (uploads id media now) q ok_ h = uploaded-Kept id media now q h
  happen-Kept (polls id answer now) q ok_ h = polled-Kept id answer now q h
  happen-Kept (throws id) q ok_ h = throw_run-Kept id q h
  happen-Kept cancels q no_cancel h = absurd no_cancel

  pub after_all-Kept :
      (es : List UploadEvent) (q : UploadQueue)
      → All IsNoCancel es
      → Kept q
      → Kept (after_all concurrency es q)
  unfolding after_all
  after_all-Kept [] q h k = k
  after_all-Kept (e ∷ es) q (h, hs) k =
      after_all-Kept es (happen concurrency e q) hs (happen-Kept e q h k)
