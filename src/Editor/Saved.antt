-- ===== src/Editor/Saved.antt =====
-- The life of an editor: what the user typed reaches the server.
use wedding_saas.Editor.Accounted.{
  after_answer, Grounded, edited-Accounted, Carried, edited, answer_request-Accounted, waiting,
  run-Accounted, edit_open, Accounted,
}
use wedding_saas.Editor.Autosave.{
  with_timer, Flight, settle, proceed, edit, close, begin, run, flush, answer_request, Session,
  Pending, Batch, Answer,
}
use mathlib.Core.Path.{sym, subst}
use wedding_saas.Base.{
  some, ◌∙◌, ◌⊎◌, refl, inr, inl, Bool-cases, none, Option-cases, Option, ◌≡◌, All, ℕ, true, false,
  List, [], ◌∷◌,
}

pub data EditorEvent : Type 0 where
  -- a field and its value
  edits : ℕ → ℕ → EditorEvent
  -- the timer, the retry button, or the start of `stop`
  flushes : EditorEvent
  answers : Answer → EditorEvent
  -- the end of `stop`
  closes : EditorEvent

-- An editor that shows what the server holds.
abbrev pub opened : (ℕ → ℕ) → Session
opened document = record {
  manager = record {
    pending = [];
    timer = false;
    in_flight = none;
    again = false;
    stopped = false;
  };
  document = document;
  server = document;
}

begin-stopped : (bs : List Batch) (s : Session) → (begin bs s).0.manager.stopped ≡ s.manager.stopped
begin-stopped [] s = refl
begin-stopped (b ∷ bs) s = refl

run-stopped : (s : Session) → (run s).0.manager.stopped ≡ s.manager.stopped
unfolding run
run-stopped s = elim (Option-cases s.manager.in_flight) [
  | inl idle ↦ rw (idle, run) (begin-stopped s.manager.pending s)
  | inr (flight, flies) ↦ rw (flies, run) refl
]

settle-stopped : (s : Session) → (settle s).0.manager.stopped ≡ s.manager.stopped
settle-stopped s = elim (Bool-cases s.manager.again) [
  | inl asked ↦
      rw asked (
        run-stopped (record s { manager = record (s.manager) { in_flight = none; again = false } }))
  | inr done ↦ rw done refl
]

proceed-stopped :
    (rest : List Batch) (s : Session) → (proceed rest s).0.manager.stopped ≡ s.manager.stopped
proceed-stopped [] s = settle-stopped s
proceed-stopped (b ∷ bs) s = refl

answer_request-stopped :
    (answer : Answer) (s : Session)
    → (answer_request answer s).0.manager.stopped ≡ s.manager.stopped
unfolding answer_request
answer_request-stopped answer s = elim (Option-cases s.manager.in_flight) [
  | inl idle ↦ rw (idle, answer_request) refl
  | inr (flight, flies) ↦
      rw (flies, answer_request) (proceed-stopped flight.rest (after_answer answer flight s))
]

pub at_rest :
    (pending : Pending) (flight : Option Flight) (document : ℕ → ℕ) (P : Type 0) (f : ℕ)
    → pending ≡ []
    → flight ≡ none
    → (waiting f pending ≡ true) ⊎ (Carried flight document f ⊎ (Grounded flight f × P))
    → P
at_rest [] none document P f empty idle (inl waits) = cc
at_rest [] none document P f empty idle (inr (inl carried)) = absurd carried
at_rest [] none document P f empty idle (inr (inr (clear, p))) = p
at_rest [] (some flight) document P f empty idle has = cc
at_rest (b ∷ bs) flight document P f empty idle has = cc

module _ (group_for : ℕ → ℕ) where
  unfoldable pub happen : EditorEvent → Session → Session
  happen (edits f value) s = edit group_for f value s
  happen flushes s = (flush s).0
  happen (answers answer) s = (answer_request answer s).0
  happen closes s = close s

  unfoldable pub after_all : List EditorEvent → Session → Session
  after_all [] s = s
  after_all (e ∷ es) s = after_all es (happen e s)

  abbrev pub IsNoEdit : EditorEvent → Type 0
  IsNoEdit (edits f value) = ⊥
  IsNoEdit _ = Unit

  -- No edit comes after the editor is closed.
  abbrev pub IsOrderly : List EditorEvent → Type 0
  IsOrderly [] = Unit
  IsOrderly (closes ∷ es) = All IsNoEdit es
  IsOrderly (_ ∷ es) = IsOrderly es

  abbrev AllAccounted : Session → Type 0
  AllAccounted s = (f : ℕ) → Accounted s f

  quiet-Accounted :
      (es : List EditorEvent) (s : Session)
      → All IsNoEdit es
      → AllAccounted s
      → AllAccounted (after_all es s)
  unfolding after_all happen flush close
  quiet-Accounted [] s none_left has = has
  quiet-Accounted (edits f value ∷ es) s (no_edit, rest) has = absurd no_edit
  quiet-Accounted (flushes ∷ es) s (ok_, rest) has =
      quiet-Accounted es (flush s).0 rest (λ f. run-Accounted (with_timer false s) f (has f))
  quiet-Accounted (answers answer ∷ es) s (ok_, rest) has =
      quiet-Accounted es (answer_request answer s).0 rest
        (λ f. answer_request-Accounted answer s f (has f))
  quiet-Accounted (closes ∷ es) s (ok_, rest) has = quiet-Accounted es (close s) rest has

  pub after_all-Accounted :
      (es : List EditorEvent) (s : Session)
      → IsOrderly es
      → s.manager.stopped ≡ false
      → AllAccounted s
      → AllAccounted (after_all es s)
  unfolding after_all happen flush close
  after_all-Accounted [] s orderly open_ has = has
  after_all-Accounted (edits f value ∷ es) s orderly open_ has =
      let same = edit_open group_for f value s open_ in
      subst (λ t. AllAccounted (after_all es t)) (sym same)
        (after_all-Accounted es (edited group_for f value s) orderly open_
          (λ g. edited-Accounted group_for f value s g (has g)))
  after_all-Accounted (flushes ∷ es) s orderly open_ has =
      after_all-Accounted es (flush s).0 orderly (run-stopped (with_timer false s) ∙ open_)
        (λ f. run-Accounted (with_timer false s) f (has f))
  after_all-Accounted (answers answer ∷ es) s orderly open_ has =
      after_all-Accounted es (answer_request answer s).0 orderly
        (answer_request-stopped answer s ∙ open_) (λ f. answer_request-Accounted answer s f (has f))
  after_all-Accounted (closes ∷ es) s orderly open_ has = quiet-Accounted es (close s) orderly has

  -- From an editor that shows what the server holds, through any edits, flushes and answers, failed
  -- ones included, that ends with nothing queued and no request out: the server holds every field as
  -- it stands in the editor. No edit may come after the editor is closed.
  pub saves_all :
      (document : ℕ → ℕ) (events : List EditorEvent)
      → IsOrderly events
      → (after_all events (opened document)).manager.pending ≡ []
      → (after_all events (opened document)).manager.in_flight ≡ none
      → (f : ℕ)
      → (after_all events (opened document)).server f
        ≡ (after_all events (opened document)).document f
  saves_all document events orderly empty idle f =
      let s = after_all events (opened document) in
      let has =
        after_all-Accounted events (opened document) orderly refl (λ g. inr (inr (tt, refl))) f in
      at_rest s.manager.pending s.manager.in_flight (s.document) (s.server f ≡ s.document f) f empty
        idle has
