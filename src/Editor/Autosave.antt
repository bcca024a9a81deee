-- ===== src/Editor/Autosave.antt =====
-- frontend/web-app/src/editor/autosave.ts: the manager, with what surrounds it: the fields of the
-- document that `edit` of EditorProvider.tsx changes, `save` of transport.ts, which reads the fields
-- when a request is sent, and what the server holds. A path, a group's key and a value are numbers;
-- the document is read at the paths of its fields. The callbacks do not throw.
use wedding_saas.Base.{
  Option, some, none, if◌then◌else◌, Bool, ℕ, true, false, ◌==◌, ◌++◌, List, [], ◌∷◌, any,
}

pub record Batch : Type 0 where
  pub key : ℕ
  pub fields : List ℕ

abbrev pub has_field : ℕ → List ℕ → Bool
has_field f fields = any (λ g. g == f) fields

-- `Set.add`
abbrev pub add_field : ℕ → List ℕ → List ℕ
add_field f fields = if has_field f fields then fields else fields ++ f ∷ []

-- `#pending`: the groups in the order in which they were first set.
abbrev pub Pending : Type 0
Pending = List Batch

-- `const group = pending.get(key) ?? new Set(); group.add(path); pending.set(key, group)`
unfoldable pub add_pending : ℕ → ℕ → Pending → Pending
add_pending key f [] = record { key = key; fields = f ∷ [] } ∷ []
add_pending key f (b ∷ bs) =
    let rest = add_pending key f bs in
    if b.key == key then record b { fields = add_field f b.fields } ∷ bs else b ∷ rest

-- A failed batch, put back.
unfoldable pub requeue : ℕ → List ℕ → Pending → Pending
requeue key [] pending = pending
requeue key (f ∷ fields) pending = requeue key fields (add_pending key f pending)

-- The request that is out, with the values it carries, and the batches after it.
pub record Flight : Type 0 where
  pub batch : Batch
  pub sent : ℕ → ℕ
  pub rest : List Batch

pub record Manager : Type 0 where
  pub pending : Pending
  pub timer : Bool
  pub in_flight : Option Flight
  pub again : Bool
  pub stopped : Bool

-- The manager with the document in the editor and what the server stores.
pub record Session : Type 0 where
  pub manager : Manager
  pub document : ℕ → ℕ
  pub server : ℕ → ℕ

pub data Callback : Type 0 where
  on_begin_save on_saved on_failed : List ℕ → Callback

-- What comes of a request: saved, failed before the server stored it, or after.
pub data Answer : Type 0 where
  saved lost_request lost_answer : Answer

-- `batches.flatMap((b) => b.fields)`
unfoldable pub all_fields : List Batch → List ℕ
all_fields [] = []
all_fields (b ∷ bs) = b.fields ++ all_fields bs

-- `#run` when no cycle runs: `#cycle` up to its first request, which reads the document.
abbrev pub begin : List Batch → Session → Session × List Callback
begin [] s = (s, [])
begin (b ∷ bs) s = (
  record s {
    manager = record (s.manager) {
      pending = [];
      in_flight = some (record { batch = b; sent = s.document; rest = bs });
    };
  },
  on_begin_save (all_fields (b ∷ bs)) ∷ [],
)

-- `#run`
unfoldable pub run : Session → Session × List Callback
run s = elim s.manager.in_flight [
  | some flight ↦ (record s { manager = record (s.manager) { again = true } }, [])
  | none ↦ begin s.manager.pending s
]

abbrev pub with_timer : Bool → Session → Session
with_timer timer s = record s { manager = record (s.manager) { timer = timer } }

-- The manager's `queue`, with the groups of the paths
module _ (group_for : ℕ → ℕ) where
  unfoldable pub queue : ℕ → Session → Session
  queue f s = if s.manager.stopped then s else record s {
    manager = record (s.manager) {
      pending = add_pending (group_for f) f s.manager.pending;
      timer = true;
    };
  }

  -- `edit` of EditorProvider.tsx: `setField`, then `queue`
  unfoldable pub edit : ℕ → ℕ → Session → Session
  edit f value s = queue f (record s { document = λ g. if g == f then value else s.document g })

-- `flush`; the call of the timer does the same.
unfoldable pub flush : Session → Session × List Callback
flush s = run (with_timer false s)

-- `stop` after its run
unfoldable pub close : Session → Session
close s = record s { manager = record (s.manager) { stopped = true } }

-- What the server stores of an answered request.
abbrev pub stored : Answer → Flight → (ℕ → ℕ) → ℕ → ℕ
stored lost_request flight server f = server f
stored _ flight server f = if has_field f flight.batch.fields then flight.sent f else server f

abbrev pub told : Answer → Batch → Callback
told saved batch = on_saved batch.fields
told _ batch = on_failed batch.fields

abbrev pub put_back : Answer → Batch → Pending → Pending
put_back saved batch pending = pending
put_back _ batch pending = requeue batch.key batch.fields pending

-- The end of `#cycle`: `#inFlight` is cleared, and `#run` goes round if it was asked to.
abbrev pub settle : Session → Session × List Callback
settle s =
    if s.manager.again
    then run (record s { manager = record (s.manager) { in_flight = none; again = false } })
    else (record s { manager = record (s.manager) { in_flight = none } }, [])

-- The loop of `#cycle` after an answer: the next batch is sent, with the values that it has now.
abbrev pub proceed : List Batch → Session → Session × List Callback
proceed [] s = settle s
proceed (b ∷ bs) s = (
  record s {
    manager = record (s.manager) {
      in_flight = some (record { batch = b; sent = s.document; rest = bs });
    };
  },
  [],
)

abbrev pub answered : Answer → Flight → Session → Session × List Callback
answered answer flight s =
    let (s', calls) = proceed flight.rest (record s {
      manager = record (s.manager) { pending = put_back answer flight.batch s.manager.pending };
      server = stored answer flight s.server;
    }) in
    (s', told answer flight.batch ∷ calls)

-- A request is answered.
unfoldable pub answer_request : Answer → Session → Session × List Callback
answer_request answer s = elim s.manager.in_flight [
  | none ↦ (s, [])
  | some flight ↦ answered answer flight s
]
