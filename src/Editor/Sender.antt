-- ===== src/Editor/Sender.antt =====
-- `ReorderSender` of frontend/web-app/src/editor/media/reorder.ts, with the order that the grid shows
-- and the one that the server holds. `onError` only reports.
use wedding_saas.Editor.Autosave.{Answer}
use wedding_saas.Base.{
  ◌||◌, refl, arith, [], ◌≡◌, ◌∷◌, true, if◌then◌else◌, false, Bool, All, ℕ, List, Option, none,
  some,
}

pub record ReorderSender : Type 0 where
  pub pending : Option (List ℕ)
  pub timer : Bool
  pub in_flight : Option (List ℕ)
  pub again : Bool
  pub shown : List ℕ
  pub server : List ℕ

abbrev pub opened_sender : List ℕ → ReorderSender
opened_sender ids = record {
  pending = none;
  timer = false;
  in_flight = none;
  again = false;
  shown = ids;
  server = ids;
}

-- `queue`
unfoldable pub queue_order : List ℕ → ReorderSender → ReorderSender
queue_order ids s = record s { pending = some ids; timer = true; shown = ids }

-- `#run` up to its request
unfoldable pub run_sender : ReorderSender → ReorderSender
run_sender s = elim s.in_flight [
  | some ids ↦ record s { again = true }
  | none ↦ elim s.pending [
    | none ↦ s
    | some ids ↦ record s { pending = none; in_flight = some ids }
  ]
]

-- `flush`; the call of the timer does the same.
unfoldable pub flush_sender : ReorderSender → ReorderSender
flush_sender s = run_sender (record s { timer = false })

abbrev pub stored_order : Answer → List ℕ → List ℕ → List ℕ
stored_order Answer.lost_request ids server = server
stored_order _ ids server = ids

-- `#run` after its request
unfoldable pub order_answered : Answer → ReorderSender → ReorderSender
order_answered answer s = elim s.in_flight [
  | none ↦ s
  | some ids ↦
      let after = record s { in_flight = none; server = stored_order answer ids s.server } in
      if s.again then run_sender (record after { again = false }) else after
]

pub data SenderEvent : Type 0 where
  arranges : List ℕ → SenderEvent
  sends : SenderEvent
  hears : Answer → SenderEvent

unfoldable pub happen_sender : SenderEvent → ReorderSender → ReorderSender
happen_sender (arranges ids) s = queue_order ids s
happen_sender sends s = flush_sender s
happen_sender (hears answer) s = order_answered answer s

unfoldable pub after_sends : List SenderEvent → ReorderSender → ReorderSender
after_sends [] s = s
after_sends (e ∷ es) s = after_sends es (happen_sender e s)

-- An arrangement that waits has a timer that sends it, or a request after which it is sent.
abbrev pub Scheduled : Option (List ℕ) → Bool → Option (List ℕ) → Bool → Type 0
Scheduled none timer in_flight again = Unit
Scheduled (some ids) timer none again = timer ≡ true
Scheduled (some ids) timer (some out) again = (timer || again) ≡ true

-- The last arrangement waits, is out, or is what the server holds.
abbrev pub Latest : List ℕ → Option (List ℕ) → Option (List ℕ) → List ℕ → Type 0
Latest shown (some ids) in_flight server = ids ≡ shown
Latest shown none (some ids) server = ids ≡ shown
Latest shown none none server = server ≡ shown

abbrev pub IsKept : SenderEvent → Type 0
IsKept (hears Answer.lost_request) = ⊥
IsKept _ = Unit

abbrev Good : ReorderSender → Type 0
Good s =
    Scheduled s.pending s.timer s.in_flight s.again × Latest s.shown s.pending s.in_flight s.server

run-Good :
    (pending in_flight : Option (List ℕ)) (timer again : Bool) (shown server : List ℕ)
    → Latest shown pending in_flight server
    → Good (
        run_sender (record {
          pending = pending;
          timer = timer;
          in_flight = in_flight;
          again = again;
          shown = shown;
          server = server;
        }))
unfolding run_sender
run-Good none none timer again shown server h = (tt, h)
run-Good none (some out) timer again shown server h = (tt, h)
run-Good (some ids) none timer again shown server h = (tt, h)
run-Good (some ids) (some out) timer again shown server h = (ground arith, h)

answered-Good :
    (answer : Answer) (pending in_flight : Option (List ℕ)) (timer again : Bool)
    (shown server : List ℕ)
    → IsKept (hears answer)
    → Scheduled pending timer in_flight again × Latest shown pending in_flight server
    → Good (
        order_answered answer (record {
          pending = pending;
          timer = timer;
          in_flight = in_flight;
          again = again;
          shown = shown;
          server = server;
        }))
unfolding order_answered
answered-Good answer pending none timer again shown server kept h = h
answered-Good Answer.lost_request pending (some out) timer again shown server kept h = absurd kept
answered-Good Answer.saved none (some out) timer true shown server kept (w, h) =
    run-Good none none timer false shown out h
answered-Good Answer.lost_answer none (some out) timer true shown server kept (w, h) =
    run-Good none none timer false shown out h
answered-Good Answer.saved (some ids) (some out) timer true shown server kept (w, h) =
    run-Good (some ids) none timer false shown out h
answered-Good Answer.lost_answer (some ids) (some out) timer true shown server kept (w, h) =
    run-Good (some ids) none timer false shown out h
answered-Good Answer.saved none (some out) timer false shown server kept (w, h) = (tt, h)
answered-Good Answer.lost_answer none (some out) timer false shown server kept (w, h) = (tt, h)
answered-Good Answer.saved (some ids) (some out) timer false shown server kept (w, h) =
    (ground (arith, w), h)
answered-Good Answer.lost_answer (some ids) (some out) timer false shown server kept (w, h) =
    (ground (arith, w), h)

scheduled :
    (ids : List ℕ) (in_flight : Option (List ℕ)) (again : Bool)
    → Scheduled (some ids) true in_flight again
scheduled ids none again = refl
scheduled ids (some out) again = refl

happen-Good : (e : SenderEvent) (s : ReorderSender) → IsKept e → Good s → Good (happen_sender e s)
unfolding happen_sender queue_order flush_sender
happen-Good (arranges ids) s kept h = (scheduled ids s.in_flight s.again, refl)
happen-Good sends s kept (w, h) = run-Good s.pending s.in_flight false s.again s.shown s.server h
happen-Good (hears answer) s kept h =
    answered-Good answer s.pending s.in_flight s.timer s.again s.shown s.server kept h

after-Good :
    (es : List SenderEvent) (s : ReorderSender) → All IsKept es → Good s → Good (after_sends es s)
unfolding after_sends
after-Good [] s kept h = h
after-Good (e ∷ es) s (k, ks) h = after-Good es (happen_sender e s) ks (happen-Good e s k h)

-- However the photos are arranged and the requests answered, if no request is lost before the server
-- stored it: an arrangement that waits has a timer, or a request that is out and will be followed by
-- it; and the arrangement that is shown waits, is out, or is what the server holds.
pub after_sends-Latest :
    (ids : List ℕ) (es : List SenderEvent)
    → All IsKept es
    → (let s = after_sends es (opened_sender ids) in
        Scheduled s.pending s.timer s.in_flight s.again
        × Latest s.shown s.pending s.in_flight s.server)
after_sends-Latest ids es kept = after-Good es (opened_sender ids) kept (tt, refl)
