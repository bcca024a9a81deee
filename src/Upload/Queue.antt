-- ===== src/Upload/Queue.antt =====
-- frontend/web-app/src/editor/media/upload-queue.ts: the queue, with the runs that are out and what
-- the transport answers them. Names, sizes and previews are left out; an item's file is kept with it,
-- as the source never removes one. Times are milliseconds.
use wedding_saas.Base.Table.{update_where}
use wedding_saas.Base.{
  zero, ◌∷◌, ◌==◌, true, ltb, leb, false, [], ◌-◌, ◌+◌, ◌++◌, suc, some, none, min, map, length,
  if◌then◌else◌, find, Option, List, Bool, ℕ,
}

pub data UploadState : Type 0 where
  queued uploading processing ready failed : UploadState

-- The source's three messages
pub data UploadError : Type 0 where
  not_uploaded not_processable too_slow : UploadError

pub record UploadItem : Type 0 where
  pub id : ℕ
  pub state : UploadState
  pub progress : ℕ
  pub media_id : Option ℕ
  pub url : Option ℕ
  pub error : Option UploadError

-- A call of `#run` that has not ended: whether its signal is aborted, and the media id and the
-- deadline once it polls.
pub record Run : Type 0 where
  pub id : ℕ
  pub aborted : Bool
  pub awaiting : Option (ℕ × ℕ)

pub record UploadQueue : Type 0 where
  pub items : List UploadItem
  pub running : ℕ
  pub runs : List Run
  pub counter : ℕ

abbrev pub poll_timeout_ms : ℕ
poll_timeout_ms = 120000

abbrev pub is_queued : UploadItem → Bool
is_queued item = elim item.state [ queued ↦ true | _ ↦ false ]

abbrev pub is_failed : UploadItem → Bool
is_failed item = elim item.state [ failed ↦ true | _ ↦ false ]

abbrev pub update_items : ℕ → (UploadItem → UploadItem) → List UploadItem → List UploadItem
update_items id patch items = update_where (λ item. item.id == id) patch items

-- `#update`
abbrev pub update : ℕ → (UploadItem → UploadItem) → UploadQueue → UploadQueue
update id patch q = record q { items = update_items id patch q.items }

abbrev pub set_uploading : UploadItem → UploadItem
set_uploading item = record item { state = uploading }

-- The body of `#pump`'s loop, with the start of `#run`
abbrev pub start : ℕ → UploadQueue → UploadQueue
start id q = record q {
  items = update_items id set_uploading q.items;
  running = q.running + 1;
  runs = q.runs ++ record { id = id; aborted = false; awaiting = none } ∷ [];
}

abbrev pub remove_run : ℕ → List Run → List Run
remove_run id [] = []
remove_run id (r ∷ rs) = if r.id == id then rs else r ∷ remove_run id rs

abbrev pub run_of : ℕ → List Run → Option Run
run_of id runs = find (λ r. r.id == id) runs

abbrev pub set_failed : UploadError → UploadItem → UploadItem
set_failed error item = record item { state = failed; error = some error }

abbrev pub set_ready : Option ℕ → UploadItem → UploadItem
set_ready url item = record item { state = ready; url = url }

abbrev pub set_processing : ℕ → UploadItem → UploadItem
set_processing media item = record item {
  state = processing;
  progress = 100;
  media_id = some media;
}

abbrev pub set_queued : UploadItem → UploadItem
set_queued item = record item { state = queued; progress = 0; error = none }

-- What a poll tells.
pub data PollAnswer : Type 0 where
  is_ready : Option ℕ → PollAnswer
  is_refused is_other : PollAnswer

-- The items that `add` makes.
abbrev pub new_items : ℕ → ℕ → List UploadItem
new_items counter zero = []
new_items counter (suc n) =
    record {
      id = counter + 1;
      state = queued;
      progress = 0;
      media_id = none;
      url = none;
      error = none;
    }
    ∷ new_items (counter + 1) n

abbrev pub await_ready : ℕ → ℕ → ℕ → Run → Run
await_ready id media now r =
    if r.id == id then record r { awaiting = some (media, now + poll_timeout_ms) } else r

module _ (concurrency : ℕ) where
  -- The condition and the first line of `#pump`'s loop
  abbrev pub next_to_start : UploadQueue → Option UploadItem
  next_to_start q = if ltb q.running concurrency then find is_queued q.items else none

  -- `#pump`, on fuel
  unfoldable pub pump_with : ℕ → UploadQueue → UploadQueue
  pump_with zero q = q
  pump_with (suc n) q = elim (next_to_start q) [
    | none ↦ q
    | some next ↦ pump_with n (start next.id q)
  ]

  -- No more turns than there are items.
  abbrev pub pump : UploadQueue → UploadQueue
  pump q = pump_with (length q.items) q

  -- `add`, of so many files
  unfoldable pub add : ℕ → UploadQueue → UploadQueue
  add files q =
      pump (record q { items = q.items ++ new_items q.counter files; counter = q.counter + files })

  -- `retry`
  unfoldable pub retry : ℕ → UploadQueue → UploadQueue
  retry id q = elim (find (λ item. item.id == id) q.items) [
    | none ↦ q
    | some item ↦ if is_failed item then pump (update id set_queued q) else q
  ]

  -- The `finally` of a run
  abbrev pub end_run : ℕ → UploadQueue → UploadQueue
  end_run id q = pump (record q { running = q.running - 1; runs = remove_run id q.runs })

  abbrev pub end_as : ℕ → (UploadItem → UploadItem) → UploadQueue → UploadQueue
  end_as id patch q = end_run id (update id patch q)

  -- The `catch` of `#run`
  unfoldable pub throw_run : ℕ → UploadQueue → UploadQueue
  throw_run id q = elim (run_of id q.runs) [
    | none ↦ q
    | some r ↦ if r.aborted then end_run id q else end_as id (set_failed not_uploaded) q
  ]

  abbrev pub poll_answered : ℕ → ℕ → PollAnswer → ℕ → UploadQueue → UploadQueue
  poll_answered id deadline (is_ready url) now q = end_as id (set_ready url) q
  poll_answered id deadline is_refused now q = end_as id (set_failed not_processable) q
  poll_answered id deadline is_other now q =
      if leb deadline now then end_as id (set_failed too_slow) q else q

  -- A turn of `#awaitReady`
  unfoldable pub polled : ℕ → PollAnswer → ℕ → UploadQueue → UploadQueue
  polled id answer now q = elim (run_of id q.runs) [
    | none ↦ q
    | some r ↦ elim r.awaiting [
      | none ↦ q
      | some (media, deadline) ↦ poll_answered id deadline answer now q
    ]
  ]

-- `#run` when the upload is done
unfoldable pub uploaded : ℕ → ℕ → ℕ → UploadQueue → UploadQueue
uploaded id media now q = elim (run_of id q.runs) [
  | none ↦ q
  | some r ↦ elim r.awaiting [
    | some polls ↦ q
    | none ↦ record q {
      items = update_items id (set_processing media) q.items;
      runs = map (await_ready id media now) q.runs;
    }
  ]
]

-- The upload's report of its progress
unfoldable pub progressed : ℕ → ℕ → UploadQueue → UploadQueue
progressed id percent q = update id (λ item. record item { progress = min 100 percent }) q

-- `cancelAll`
unfoldable pub cancel_all : UploadQueue → UploadQueue
cancel_all q = record q { runs = map {A = Run} (λ r. record r { aborted = true }) q.runs }
