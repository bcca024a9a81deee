-- ===== src/Editor/Drained.antt =====
-- A flush that the server answers ends with everything saved.
use wedding_saas.Editor.Saved.{
  at_rest, after_all-Accounted, opened, IsOrderly, EditorEvent, after_all,
}
use wedding_saas.Editor.Accounted.{
  run-Accounted, answer_request-Accounted, Accounted, cleared, after_answer,
}
use wedding_saas.Editor.Autosave.{
  answered, Callback, with_timer, flush, begin, proceed, settle, Answer, run, answer_request,
  Session, Flight, Batch,
}
use mathlib.Core.Path.{sym, ap, subst}
use wedding_saas.Base.{
  ◌∙◌, inr, refl, inl, zero, Bool-cases, some, none, ◌≡◌, suc, ℕ, true, false, List, [], ◌∷◌,
  length,
}

-- So many requests in a row that are saved.
unfoldable pub saves : ℕ → Session → Session
saves zero s = s
saves (suc n) s = saves n (answer_request Answer.saved s).0

abbrev IsIdle : Session → Type 0
IsIdle s = (s.manager.pending ≡ []) × (s.manager.in_flight ≡ none)

abbrev saved_flight : Flight → Session → Session
saved_flight flight s = after_answer Answer.saved flight s

answer_request-saved :
    (s : Session) (flight : Flight)
    → s.manager.in_flight ≡ some flight
    → (answer_request Answer.saved s).0 ≡ (proceed flight.rest (saved_flight flight s)).0
unfolding answer_request
answer_request-saved s flight flies =
    ap
      (λ o.
        (elim o as (λ _. Session × List Callback) [
          | none ↦ (s, [])
          | some out ↦ answered Answer.saved out s
        ]).0)
      flies

settle-IsIdle :
    (s : Session)
    → s.manager.pending ≡ []
    → IsIdle (settle s).0 × ((settle s).0.document ≡ s.document)
unfolding run
settle-IsIdle s empty = elim (Bool-cases s.manager.again) [
  | inl asked ↦ rw asked (
      subst
        (λ bs.
          IsIdle (begin bs (cleared false s)).0
          × ((begin bs (cleared false s)).0.document ≡ s.document))
        (sym empty) ((empty, refl), refl))
  | inr done ↦ rw done ((empty, refl), refl)
]

saves-suc : (n : ℕ) (s : Session) → saves (suc n) s ≡ saves n (answer_request Answer.saved s).0
unfolding saves
saves-suc n s = refl

saves-zero : (s : Session) → saves 0 s ≡ s
unfolding saves
saves-zero s = refl

abbrev Drains : Session → Session → Type 0
Drains s t = IsIdle t × (t.document ≡ s.document)

saves-IsIdle :
    (rest : List Batch) (s : Session) (flight : Flight)
    → s.manager.in_flight ≡ some flight
    → flight.rest ≡ rest
    → s.manager.pending ≡ []
    → Drains s (saves (suc (length rest)) s)
saves-IsIdle [] s flight flies last empty =
    subst (Drains s)
      (sym (
        saves-suc 0 s
        ∙ saves-zero (answer_request Answer.saved s).0
        ∙ answer_request-saved s flight flies))
      (subst (λ bs. Drains s (proceed bs (saved_flight flight s)).0) (sym last)
        (settle-IsIdle (saved_flight flight s) empty))
saves-IsIdle (b ∷ bs) s flight flies last empty =
    let next = (proceed (b ∷ bs) (saved_flight flight s)).0 in
    subst (Drains s)
      (sym (
        saves-suc (suc (length bs)) s
        ∙ ap (saves (suc (length bs))) (
            answer_request-saved s flight flies
            ∙ ap (λ cs. (proceed cs (saved_flight flight s)).0) last)))
      (saves-IsIdle bs next (record { batch = b; sent = s.document; rest = bs }) refl refl empty)

flush-Drains :
    (bs : List Batch) (s : Session)
    → s.manager.pending ≡ bs
    → s.manager.in_flight ≡ none
    → Drains s (saves (length bs) (begin bs (with_timer false s)).0)
flush-Drains [] s same idle =
    subst (Drains s) (sym (saves-zero (with_timer false s))) ((same, idle), refl)
flush-Drains (b ∷ bs) s same idle =
    saves-IsIdle bs (begin (b ∷ bs) (with_timer false s)).0
      (record { batch = b; sent = s.document; rest = bs }) refl refl refl

flush-begin :
    (s : Session)
    → s.manager.in_flight ≡ none
    → (flush s).0 ≡ (begin s.manager.pending (with_timer false s)).0
unfolding flush run
flush-begin s idle =
    ap
      (λ o.
        (elim o as (λ _. Session × List Callback) [
          | some flight ↦ (
            record (with_timer false s) {
              manager = record ((with_timer false s).manager) { again = true };
            },
            [],
          )
          | none ↦ begin s.manager.pending (with_timer false s)
        ]).0)
      idle

saves-Accounted : (n : ℕ) (s : Session) (f : ℕ) → Accounted s f → Accounted (saves n s) f
unfolding saves
saves-Accounted zero s f has = has
saves-Accounted (suc n) s f has =
    saves-Accounted n (answer_request Answer.saved s).0 f
      (answer_request-Accounted Answer.saved s f has)

flush-Accounted : (s : Session) (f : ℕ) → Accounted s f → Accounted (flush s).0 f
unfolding flush
flush-Accounted s f has = run-Accounted (with_timer false s) f has

-- In every state that an editor can come to with no request out and with no edit after it is
-- closed, failures before it included, a flush and one saved answer for each waiting group end
-- the run: nothing waits, nothing is out, and the server holds every field as it stands in the
-- editor.
pub flush-saves :
    (group_for document : ℕ → ℕ) (events : List EditorEvent)
    → IsOrderly group_for events
    → (after_all group_for events (opened document)).manager.in_flight ≡ none
    → let s = after_all group_for events (opened document) in
      let t = saves (length s.manager.pending) (flush s).0 in
      (t.manager.pending ≡ [])
      × (t.manager.in_flight ≡ none)
      × ((f : ℕ) → t.server f ≡ s.document f)
flush-saves group_for document events orderly idle =
    let s = after_all group_for events (opened document) in
    let n = length s.manager.pending in
    let t = saves n (flush s).0 in
    let ((empty, rests), same) : Drains s t =
      subst (λ u. Drains s (saves n u)) (sym (flush-begin s idle))
        (flush-Drains s.manager.pending s refl idle) in
    let has =
      after_all-Accounted group_for events (opened document) orderly refl
        (λ g. inr (inr (tt, refl))) in
    (
      empty,
      rests,
      λ f.
          at_rest t.manager.pending t.manager.in_flight t.document (t.server f ≡ t.document f) f
            empty rests (saves-Accounted n (flush s).0 f (flush-Accounted s f (has f)))
          ∙ ap (λ d. d f) same,
    )
