-- ===== src/Upload/Slots.antt =====
-- The slots of the upload queue, whatever happens to it.
use wedding_saas.Base.{
  leb, true, min, ◌-◌, ◌+◌, suc, ◌==◌, ◌++◌, some, refl, false, Bool-cases, ◌≡◌, inl, find, map,
  inr, Option-cases, ◌∷◌, length, arith, ℕ, [], List,
}
use wedding_saas.Upload.Queue.{
  is_other, is_refused, too_slow, not_processable, set_ready, set_queued, remove_run, not_uploaded,
  is_ready, update, set_processing, set_failed, poll_answered, new_items, is_failed, end_run,
  end_as, await_ready, cancel_all, run_of, progressed, is_queued, uploaded, throw_run, retry, pump,
  polled, add, UploadItem, Run, PollAnswer, UploadQueue,
}
use wedding_saas.Upload.Pumped.{find-none-update, pump-Full, pump-Counted, Counted, Full}

pub data UploadEvent : Type 0 where
  adds : ℕ → UploadEvent
  retries : ℕ → UploadEvent
  -- the item and the percentage
  progresses : ℕ → ℕ → UploadEvent
  -- the item, its media id and the time
  uploads : ℕ → ℕ → ℕ → UploadEvent
  polls : ℕ → PollAnswer → ℕ → UploadEvent
  throws : ℕ → UploadEvent
  cancels : UploadEvent

abbrev pub empty_queue : UploadQueue
empty_queue = record { items = []; running = 0; runs = []; counter = 0 }

pub length-remove_run :
    (id : ℕ) (runs : List Run) (r : Run)
    → run_of id runs ≡ some r
    → suc (length (remove_run id runs)) ≡ length runs
length-remove_run id [] r h = cc
length-remove_run id (x ∷ xs) r h = ground (arith, length-remove_run id xs r)

pub length-map : {A B : Type 0} (f : A → B) (xs : List A) → length (map f xs) ≡ length xs
length-map f [] = refl
length-map f (x ∷ xs) = omega (arith, length-map f xs)

module _ (concurrency : ℕ) where
  unfoldable pub happen : UploadEvent → UploadQueue → UploadQueue
  happen (adds files) q = add concurrency files q
  happen (retries id) q = retry concurrency id q
  happen (progresses id percent) q = progressed id percent q
  happen (uploads id media now) q = uploaded id media now q
  happen (polls id answer now) q = polled concurrency id answer now q
  happen (throws id) q = throw_run concurrency id q
  happen cancels q = cancel_all q

  unfoldable pub after_all : List UploadEvent → UploadQueue → UploadQueue
  after_all [] q = q
  after_all (e ∷ es) q = after_all es (happen e q)

  abbrev pub Sound : UploadQueue → Type 0
  Sound q = Counted concurrency q × Full concurrency q

  pump-Sound : (q : UploadQueue) → Counted concurrency q → Sound (pump concurrency q)
  pump-Sound q h = (pump-Counted concurrency q h, pump-Full concurrency q)

  end_run-Sound :
      (id : ℕ) (q : UploadQueue) (r : Run)
      → run_of id q.runs ≡ some r
      → Counted concurrency q
      → Sound (end_run concurrency id q)
  end_run-Sound id q r found h =
      pump-Sound (record q { running = q.running - 1; runs = remove_run id q.runs })
        (record {
          exact = omega (arith, h.exact, length-remove_run id q.runs r found);
          capped = omega (arith, h.capped);
        })

  end_as-Sound :
      (id : ℕ) (patch : UploadItem → UploadItem) (q : UploadQueue) (r : Run)
      → run_of id q.runs ≡ some r
      → Counted concurrency q
      → Sound (end_as concurrency id patch q)
  end_as-Sound id patch q r found h =
      end_run-Sound id (update id patch q) r found (record { exact = h.exact; capped = h.capped })

  Full-update :
      (id : ℕ) (patch : UploadItem → UploadItem) (q : UploadQueue)
      → ((item : UploadItem) → is_queued item ≡ false → is_queued (patch item) ≡ false)
      → Full concurrency q
      → Full concurrency (update id patch q)
  Full-update id patch q h (inl busy) = inl busy
  Full-update id patch q h (inr idle) = inr (find-none-update id patch h q.items idle)

  throw_run-Sound : (id : ℕ) (q : UploadQueue) → Sound q → Sound (throw_run concurrency id q)
  unfolding throw_run
  throw_run-Sound id q (h, full) = elim (Option-cases (run_of id q.runs)) [
    | inl none_such ↦ rw (none_such, throw_run) (h, full)
    | inr (r, found) ↦ elim (Bool-cases r.aborted) [
      | inl stopped ↦ rw (found, throw_run) (rw stopped (end_run-Sound id q r found h))
      | inr goes_on ↦
          rw (found, throw_run) (rw goes_on (end_as-Sound id (set_failed not_uploaded) q r found h))
    ]
  ]

  poll_answered-Sound :
      (id deadline now : ℕ) (answer : PollAnswer) (q : UploadQueue) (r : Run)
      → run_of id q.runs ≡ some r
      → Sound q
      → Sound (poll_answered concurrency id deadline answer now q)
  poll_answered-Sound id deadline now (is_ready url) q r found (h, full) =
      end_as-Sound id (set_ready url) q r found h
  poll_answered-Sound id deadline now is_refused q r found (h, full) =
      end_as-Sound id (set_failed not_processable) q r found h
  poll_answered-Sound id deadline now is_other q r found (h, full) =
      elim (Bool-cases (leb deadline now)) [
        | inl late ↦ rw late (end_as-Sound id (set_failed too_slow) q r found h)
        | inr early ↦ rw early (h, full)
      ]

  polled-Sound :
      (id : ℕ) (answer : PollAnswer) (now : ℕ) (q : UploadQueue)
      → Sound q
      → Sound (polled concurrency id answer now q)
  unfolding polled
  polled-Sound id answer now q s = elim (Option-cases (run_of id q.runs)) [
    | inl none_such ↦ rw (none_such, polled) s
    | inr (r, found) ↦ elim (Option-cases r.awaiting) [
      | inl sends ↦ rw (found, polled) (rw sends s)
      | inr ((media, deadline), waits) ↦
          rw (found, polled) (rw waits (poll_answered-Sound id deadline now answer q r found s))
    ]
  ]

  uploaded-Sound : (id media now : ℕ) (q : UploadQueue) → Sound q → Sound (uploaded id media now q)
  unfolding uploaded
  uploaded-Sound id media now q (h, full) = elim (Option-cases (run_of id q.runs)) [
    | inl none_such ↦ rw (none_such, uploaded) (h, full)
    | inr (r, found) ↦ elim (Option-cases r.awaiting) [
      | inr (poll, waits) ↦ rw (found, uploaded) (rw waits (h, full))
      | inl sends ↦
          rw (found, uploaded)
            (rw sends (
              record {
                exact = omega (arith, h.exact, length-map (await_ready id media now) q.runs);
                capped = h.capped;
              },
              Full-update id (set_processing media) q (λ item waits. refl) full,
            ))
    ]
  ]

  retry-Sound : (id : ℕ) (q : UploadQueue) → Sound q → Sound (retry concurrency id q)
  unfolding retry
  retry-Sound id q (h, full) = elim (Option-cases (find (λ item. item.id == id) q.items)) [
    | inl none_such ↦ rw (none_such, retry) (h, full)
    | inr (item, found) ↦ elim (Bool-cases (is_failed item)) [
      | inr other ↦ rw (found, retry) (rw other (h, full))
      | inl again ↦
          rw (found, retry)
            (rw again
              (pump-Sound (update id set_queued q) (record { exact = h.exact; capped = h.capped })))
    ]
  ]

  pub happen-Sound : (e : UploadEvent) (q : UploadQueue) → Sound q → Sound (happen e q)
  unfolding happen add progressed cancel_all
  happen-Sound (adds files) q (h, full) =
      pump-Sound
        (record q { items = q.items ++ new_items q.counter files; counter = q.counter + files })
        (record { exact = h.exact; capped = h.capped })
  happen-Sound (retries id) q s = retry-Sound id q s
  happen-Sound (progresses id percent) q (h, full) = (
    record { exact = h.exact; capped = h.capped },
    Full-update id (λ item. record item { progress = min 100 percent }) q (λ item waits. waits)
        full,
  )
  happen-Sound (uploads id media now) q s = uploaded-Sound id media now q s
  happen-Sound (polls id answer now) q s = polled-Sound id answer now q s
  happen-Sound (throws id) q s = throw_run-Sound id q s
  happen-Sound cancels q (h, full) = (
    record {
      exact = omega (
        arith,
        h.exact,
        length-map {A = Run} {B = Run} (λ r. record r { aborted = true }) q.runs,
      );
      capped = h.capped;
    },
    full,
  )

  pub after_all-Sound : (es : List UploadEvent) (q : UploadQueue) → Sound q → Sound (after_all es q)
  unfolding after_all
  after_all-Sound [] q s = s
  after_all-Sound (e ∷ es) q s = after_all-Sound es (happen e q) (happen-Sound e q s)

-- Whatever files are added, retried and cancelled and however the uploads and the polls answer, the
-- counter is the number of runs that are out, it never passes the cap, and while it is below the cap
-- no file waits.
pub after_all-no_idle_slot :
    (concurrency : ℕ) (es : List UploadEvent)
    → Sound concurrency (after_all concurrency es empty_queue)
after_all-no_idle_slot concurrency es =
    after_all-Sound concurrency es empty_queue
      (record { exact = refl; capped = omega arith }, inr refl)
