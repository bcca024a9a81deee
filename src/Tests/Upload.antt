-- ===== src/Tests/Upload.antt =====
-- Ten files selected at once.
use wedding_saas.Upload.Drained.{finish-drains, is_ended, finish}
use wedding_saas.Upload.Endings.{times_out, refused, arrives, breaks, Ending}
use wedding_saas.Base.{arith, true, All, refl, ◌≡◌, [], map, none, ◌∷◌, List}
use wedding_saas.Upload.Queue.{uploaded, retry, cancel_all, throw_run, progressed, pump_with, add}
use wedding_saas.Upload.Slots.{
  uploads, cancels, retries, throws, progresses, adds, happen, Sound, after_all, UploadEvent,
  empty_queue, after_all-no_idle_slot,
}

-- Ten files; the first upload fails and is retried, and the second is stored.
abbrev batch : List UploadEvent
batch = adds 10 ∷ progresses 2 40 ∷ throws 1 ∷ retries 1 ∷ uploads 2 77 5000 ∷ []

after_all-no_idle_slot_example : Sound 3 (after_all 3 batch empty_queue)
after_all-no_idle_slot_example = after_all-no_idle_slot 3 batch

abbrev endings : List Ending
endings =
    breaks
    ∷ arrives 5 none 6000
    ∷ refused 6 6000
    ∷ times_out 7 6000 200
    ∷ breaks
    ∷ breaks
    ∷ breaks
    ∷ breaks
    ∷ breaks
    ∷ breaks
    ∷ []

finish-drains_example :
    let t = finish 3 endings (after_all 3 batch empty_queue) in
    (t.runs ≡ []) × All (λ item. is_ended item ≡ true) t.items
unfolding after_all happen add pump_with progressed throw_run retry uploaded
finish-drains_example =
    finish-drains 3 batch endings (omega arith) (tt, (tt, (tt, (tt, (tt, tt))))) (omega arith)

-- An upload that is cancelled with its page: when it ends, the next file starts.
starts_after_cancel :
    map
      (λ r. r.id)
      (after_all 3 (adds 5 ∷ cancels ∷ throws 1 ∷ throws 2 ∷ throws 3 ∷ []) empty_queue).runs
    ≡ 4 ∷ 5 ∷ []
unfolding after_all happen add pump_with throw_run cancel_all
starts_after_cancel = refl
