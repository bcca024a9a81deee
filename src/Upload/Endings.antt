-- ===== src/Upload/Endings.antt =====
-- The end of one run: something less is left to do.
use wedding_saas.Upload.Pumped.{pump_with-keeps, queued-update, queued-start}
use wedding_saas.Upload.Covered.{Unaborted, All-run_of, Kept}
use wedding_saas.Upload.Slots.{length-map, length-remove_run}
use wedding_saas.Base.{
  true, leb, some_injective, ◌==◌, Bool-cases, ◌-◌, length-append, refl, inr, map, length, arith,
  Option-cases, ◌≢◌, ◌+◌, some, none, inl, false, ◌≡◌, suc, ◌≤◌, ◌∷◌, find, count_if, [], Option, ℕ,
  List,
}
use mathlib.Core.Path.{ap, subst, sym}
use wedding_saas.Upload.Queue.{
  too_slow, set_processing, remove_run, not_uploaded, not_processable, set_failed, poll_timeout_ms,
  update_items, set_ready, await_ready, start, is_other, end_as, is_refused, run_of, is_ready,
  is_queued, PollAnswer, uploaded, throw_run, polled, Run, UploadItem, UploadQueue,
}

-- How a run ends: its upload or a poll throws; or its file is stored, unless it is already, and a
-- poll answers, or the media is still not ready at the deadline of its polls.
pub data Ending : Type 0 where
  breaks : Ending
  -- the media id, the url and the time
  arrives : ℕ → Option ℕ → ℕ → Ending
  -- the media id and the time
  refused : ℕ → ℕ → Ending
  -- the media id, the time, and how long after the deadline the last poll is
  times_out : ℕ → ℕ → ℕ → Ending

abbrev pub left_to_do : UploadQueue → ℕ
left_to_do q = count_if is_queued q.items + length q.runs

run_of-await_ready :
    (id media now : ℕ) (runs : List Run) (r : Run)
    → run_of id runs ≡ some r
    → run_of id (map (await_ready id media now) runs)
      ≡ some (record r { awaiting = some (media, now + poll_timeout_ms) })
run_of-await_ready id media now [] r h = cc
run_of-await_ready id media now (x ∷ xs) r h = elim (Bool-cases (x.id == id)) [
  | inl same ↦
      rw (same, same)
        (ap {A = Run} (λ y. some (record y { awaiting = some (media, now + poll_timeout_ms) }))
          (some_injective (rw same at h)))
  | inr other ↦ rw (other, other) (run_of-await_ready id media now xs r (rw other at h))
]

-- When the polls of an item's run give up
abbrev pub deadline_of : ℕ → UploadQueue → ℕ
deadline_of id q = elim (run_of id q.runs) [
  | none ↦ 0
  | some r ↦ elim r.awaiting [ none ↦ 0 | some (media, deadline) ↦ deadline ]
]

module _ (concurrency : ℕ) where
  -- The run of an item ends.
  abbrev pub end_with : Ending → ℕ → UploadQueue → UploadQueue
  end_with breaks id q = throw_run concurrency id q
  end_with (arrives media url now) id q =
      polled concurrency id (is_ready url) now (uploaded id media now q)
  end_with (refused media now) id q = polled concurrency id is_refused now (uploaded id media now q)
  end_with (times_out media now late) id q =
      let q' = uploaded id media now q in
      polled concurrency id is_other (deadline_of id q' + late) q'

  start-left_to_do :
      (q : UploadQueue) (next : UploadItem) (n : ℕ)
      → find is_queued q.items ≡ some next
      → left_to_do q ≤ n
      → left_to_do (start next.id q) ≤ n
  start-left_to_do q next n first h = omega (
    arith,
    h,
    queued-start q.items next first,
    length-append q.runs (record { id = next.id; aborted = false; awaiting = none } ∷ []),
  )

  end_as-left_to_do :
      (id : ℕ) (patch : UploadItem → UploadItem) (q : UploadQueue) (r : Run)
      → ((item : UploadItem) → is_queued (patch item) ≡ false)
      → run_of id q.runs ≡ some r
      → suc (left_to_do (end_as concurrency id patch q)) ≤ left_to_do q
  end_as-left_to_do id patch q r still found =
      let q' = record q {
        items = update_items id patch q.items;
        running = q.running - 1;
        runs = remove_run id q.runs;
      } in
      omega (
        arith,
        queued-update id patch still q.items,
        length-remove_run id q.runs r found,
        pump_with-keeps concurrency (λ p. left_to_do p ≤ left_to_do q')
            (λ p next free first h. start-left_to_do p next (left_to_do q') first h)
            (length q'.items) q' (omega arith),
      )

  uploaded-again :
      (id media now : ℕ) (q : UploadQueue) (r : Run) (poll : ℕ × ℕ)
      → run_of id q.runs ≡ some r
      → r.awaiting ≡ some poll
      → uploaded id media now q ≡ q
  unfolding uploaded
  uploaded-again id media now q r poll found waits = rw (found, uploaded) (rw waits refl)

  -- A call on a stored file leaves its run polling, and nothing more to do.
  uploaded-polls :
      (id media now : ℕ) (q : UploadQueue) (r : Run)
      → run_of id q.runs ≡ some r
      → (r' : Run) × (poll : ℕ × ℕ) × (run_of id (uploaded id media now q).runs ≡ some r')
        × (r'.awaiting ≡ some poll)
        × (left_to_do (uploaded id media now q) ≤ left_to_do q)
  unfolding uploaded
  uploaded-polls id media now q r found = elim (Option-cases r.awaiting) [
    | inr (poll, waits) ↦
        let same = sym (uploaded-again id media now q r poll found waits) in
        (
          r,
          poll,
          subst (λ p. run_of id p.runs ≡ some r) same found,
          waits,
          subst (λ p. left_to_do p ≤ left_to_do q) same (omega arith),
        )
    | inl sends ↦ (
      record r { awaiting = some (media, now + poll_timeout_ms) },
      (media, now + poll_timeout_ms),
      rw (found, uploaded) (rw sends (run_of-await_ready id media now q.runs r found)),
      refl,
      rw (found, uploaded)
          (rw sends (
            omega (
              arith,
              queued-update id (set_processing media) (λ item. refl) q.items,
              length-map (await_ready id media now) q.runs,
            ))),
    )
  ]

  polled-left_to_do :
      (id now : ℕ) (answer : PollAnswer) (q : UploadQueue) (r : Run) (poll : ℕ × ℕ)
      → answer ≢ is_other
      → run_of id q.runs ≡ some r
      → r.awaiting ≡ some poll
      → suc (left_to_do (polled concurrency id answer now q)) ≤ left_to_do q
  unfolding polled
  polled-left_to_do id now (is_ready url) q r (media, deadline) ends found waits =
      rw (found, polled) (rw waits (end_as-left_to_do id (set_ready url) q r (λ item. refl) found))
  polled-left_to_do id now is_refused q r (media, deadline) ends found waits =
      rw (found, polled)
        (rw waits (end_as-left_to_do id (set_failed not_processable) q r (λ item. refl) found))
  polled-left_to_do id now is_other q r poll ends found waits = absurd (ends refl)

  polled-late :
      (id now : ℕ) (q : UploadQueue) (r : Run) (media deadline : ℕ)
      → leb deadline now ≡ true
      → run_of id q.runs ≡ some r
      → r.awaiting ≡ some (media, deadline)
      → suc (left_to_do (polled concurrency id is_other now q)) ≤ left_to_do q
  unfolding polled
  polled-late id now q r media deadline passed found waits =
      rw (found, polled)
        (rw (waits, passed) (end_as-left_to_do id (set_failed too_slow) q r (λ item. refl) found))

  polled-is_other :
      (id late : ℕ) (q : UploadQueue) (r : Run) (poll : ℕ × ℕ)
      → run_of id q.runs ≡ some r
      → r.awaiting ≡ some poll
      → suc (left_to_do (polled concurrency id is_other (deadline_of id q + late) q)) ≤ left_to_do q
  polled-is_other id late q r (media, deadline) found waits =
      let at_end : deadline_of id q ≡ deadline = rw (found, deadline_of) (rw waits refl) in
      subst (λ d. suc (left_to_do (polled concurrency id is_other (d + late) q)) ≤ left_to_do q)
        (sym at_end)
        (polled-late id (deadline + late) q r media deadline (ground arith) found waits)

  pub end_with-left_to_do :
      (e : Ending) (id : ℕ) (q : UploadQueue) (r : Run)
      → Kept q
      → run_of id q.runs ≡ some r
      → suc (left_to_do (end_with e id q)) ≤ left_to_do q
  unfolding throw_run
  end_with-left_to_do breaks id q r k found =
      rw (found, throw_run)
        (rw (All-run_of Unaborted id q.runs r found k.unaborted)
          (end_as-left_to_do id (set_failed not_uploaded) q r (λ item. refl) found))
  end_with-left_to_do (arrives media url now) id q r k found =
      let (r', poll, found', waits, less) = uploaded-polls id media now q r found in
      omega (
        arith,
        less,
        polled-left_to_do id now (is_ready url) (uploaded id media now q) r' poll (λ e. cc) found'
            waits,
      )
  end_with-left_to_do (refused media now) id q r k found =
      let (r', poll, found', waits, less) = uploaded-polls id media now q r found in
      omega (
        arith,
        less,
        polled-left_to_do id now is_refused (uploaded id media now q) r' poll (λ e. cc) found'
            waits,
      )
  end_with-left_to_do (times_out media now late) id q r k found =
      let (r', poll, found', waits, less) = uploaded-polls id media now q r found in
      omega (arith, less, polled-is_other id late (uploaded id media now q) r' poll found' waits)
