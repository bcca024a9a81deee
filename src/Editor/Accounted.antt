-- ===== src/Editor/Accounted.antt =====
-- Nothing that the user typed is lost: each field is stored as it stands in the editor, or waits, or
-- is on its way.
use mathlib.Core.Path.{sym, subst}
use wedding_saas.Editor.Autosave.{
  stored, queue, put_back, settle, edit, answer_request, Answer, run, proceed, begin, add_field,
  Pending, Flight, requeue, has_field, add_pending, Session, Batch,
}
use wedding_saas.Base.{
  ==_false_sym, if◌then◌else◌, Option-cases, ◌∙◌, any-append, inr, refl, inl, arith, Bool-cases,
  ◌⊎◌, ◌||◌, some, none, ◌≡◌, Bool, Option, ℕ, true, false, ◌==◌, List, [], ◌∷◌, any,
}

abbrev pub waiting : ℕ → List Batch → Bool
waiting f bs = any (λ b. has_field f b.fields) bs

-- A field is in the request that is out, as it stands, or in a batch after it.
abbrev pub Carried : Option Flight → (ℕ → ℕ) → ℕ → Type 0
Carried none document f = ⊥
Carried (some flight) document f =
    (waiting f flight.rest ≡ true)
    ⊎ ((has_field f flight.batch.fields ≡ true) × (flight.sent f ≡ document f))

abbrev pub Grounded : Option Flight → ℕ → Type 0
Grounded none f = Unit
Grounded (some flight) f = has_field f flight.batch.fields ≡ false

abbrev pub Accounted : Session → ℕ → Type 0
Accounted s f =
    (waiting f s.manager.pending ≡ true)
    ⊎ (Carried s.manager.in_flight s.document f
        ⊎ (Grounded s.manager.in_flight f × (s.server f ≡ s.document f)))

or_swap : (a b : Bool) → (a || (b || false)) ≡ (b || a)
or_swap a b = ground arith

has_field-add_field :
    (f g : ℕ) (fields : List ℕ)
    → has_field f (add_field g fields) ≡ ((g == f) || has_field f fields)
has_field-add_field f g fields = elim (Bool-cases (has_field g fields)) [
  | inl there ↦ rw there (elim (Bool-cases (g == f)) [
    | inl same ↦
        (let own : g ≡ f = ground arith in
          let k : has_field f fields ≡ true = rw own at there in rw (same, k) refl)
    | inr other ↦ rw other refl
  ])
  | inr absent ↦
      rw absent (any-append (λ h. h == f) fields (g ∷ []) ∙ or_swap (has_field f fields) (g == f))
]

waiting-add_pending :
    (key f g : ℕ) (bs : Pending) → waiting f (add_pending key g bs) ≡ ((g == f) || waiting f bs)
unfolding add_pending
waiting-add_pending key f g [] = ground arith
waiting-add_pending key f g (b ∷ bs) =
    ground (arith, has_field-add_field f g b.fields, waiting-add_pending key f g bs)

waiting-requeue :
    (key f : ℕ) (fields : List ℕ) (bs : Pending)
    → waiting f (requeue key fields bs) ≡ (has_field f fields || waiting f bs)
unfolding requeue
waiting-requeue key f [] bs = refl
waiting-requeue key f (g ∷ fields) bs =
    ground
      (arith, waiting-requeue key f fields (add_pending key g bs), waiting-add_pending key f g bs)

-- A cycle that begins takes all that waits.
begin-Accounted :
    (bs : List Batch) (s : Session) (f : ℕ)
    → s.manager.pending ≡ bs
    → s.manager.in_flight ≡ none
    → (waiting f bs ≡ true) ⊎ (s.server f ≡ s.document f)
    → Accounted (begin bs s).0 f
begin-Accounted [] s f same idle (inl waits) = cc
begin-Accounted [] s f same idle (inr agrees) =
    inr (inr (subst (λ o. Grounded o f) (sym idle) tt, agrees))
begin-Accounted (b ∷ bs) s f same idle (inl waits) = elim (Bool-cases (has_field f b.fields)) [
  | inl own ↦ inr (inl (inr (own, refl)))
  | inr other ↦ inr (inl (inl (rw other at waits)))
]
begin-Accounted (b ∷ bs) s f same idle (inr agrees) = elim (Bool-cases (has_field f b.fields)) [
  | inl own ↦ inr (inl (inr (own, refl)))
  | inr other ↦ inr (inr (other, agrees))
]

-- A run that is asked for, on whatever state.
pub run-Accounted : (s : Session) (f : ℕ) → Accounted s f → Accounted (run s).0 f
unfolding run
run-Accounted s f has = elim (Option-cases s.manager.in_flight) [
  | inr (flight, flies) ↦ rw (flies, run) has
  | inl idle ↦
      rw (idle, run) (begin-Accounted s.manager.pending s f refl idle (at_rest (rw idle at has)))
]
  where
    at_rest :
        ((waiting f s.manager.pending ≡ true) ⊎ (⊥ ⊎ (Unit {0} × (s.server f ≡ s.document f))))
        → (waiting f s.manager.pending ≡ true) ⊎ (s.server f ≡ s.document f)
    at_rest (inl waits) = inl waits
    at_rest (inr (inl no_flight)) = absurd no_flight
    at_rest (inr (inr (clear, agrees))) = inr agrees

-- What holds of a field between two requests of a cycle.
abbrev Between : List Batch → Session → ℕ → Type 0
Between rest s f =
    (waiting f s.manager.pending ≡ true) ⊎ ((waiting f rest ≡ true) ⊎ (s.server f ≡ s.document f))

abbrev pub cleared : Bool → Session → Session
cleared again s = record s { manager = record (s.manager) { in_flight = none; again = again } }

settle-Accounted :
    (s : Session) (f : ℕ)
    → ((again : Bool) → Accounted (cleared again s) f)
    → Accounted (settle s).0 f
settle-Accounted s f has = elim (Bool-cases s.manager.again) [
  | inl asked ↦ rw asked (run-Accounted (cleared false s) f (has false))
  | inr done ↦ rw done (has s.manager.again)
]

proceed-Accounted :
    (rest : List Batch) (s : Session) (f : ℕ) → Between rest s f → Accounted (proceed rest s).0 f
proceed-Accounted [] s f (inl waits) = settle-Accounted s f (λ again. inl waits)
proceed-Accounted [] s f (inr (inl waits)) = cc
proceed-Accounted [] s f (inr (inr agrees)) = settle-Accounted s f (λ again. inr (inr (tt, agrees)))
proceed-Accounted (b ∷ bs) s f (inl waits) = inl waits
proceed-Accounted (b ∷ bs) s f (inr (inl waits)) = elim (Bool-cases (has_field f b.fields)) [
  | inl own ↦ inr (inl (inr (own, refl)))
  | inr other ↦ inr (inl (inl (rw other at waits)))
]
proceed-Accounted (b ∷ bs) s f (inr (inr agrees)) = elim (Bool-cases (has_field f b.fields)) [
  | inl own ↦ inr (inl (inr (own, refl)))
  | inr other ↦ inr (inr (other, agrees))
]

abbrev pub after_answer : Answer → Flight → Session → Session
after_answer answer flight s = record s {
  manager = record (s.manager) { pending = put_back answer flight.batch s.manager.pending };
  server = stored answer flight s.server;
}

or_true : (a : Bool) → (a || true) ≡ true
or_true a = ground arith

meets :
    (answer : Answer) (flight : Flight) (s : Session) (f : ℕ)
    → (waiting f s.manager.pending ≡ true)
      ⊎ (((waiting f flight.rest ≡ true)
            ⊎ ((has_field f flight.batch.fields ≡ true) × (flight.sent f ≡ s.document f)))
          ⊎ ((has_field f flight.batch.fields ≡ false) × (s.server f ≡ s.document f)))
    → Between flight.rest (after_answer answer flight s) f
meets Answer.saved flight s f (inl waits) = inl waits
meets Answer.saved flight s f (inr (inl (inl later))) = inr (inl later)
meets Answer.saved flight s f (inr (inl (inr (own, same)))) = inr (inr (rw own same))
meets Answer.saved flight s f (inr (inr (other, agrees))) = inr (inr (rw other agrees))
meets Answer.lost_request flight s f (inl waits) = inl (
    waiting-requeue flight.batch.key f flight.batch.fields s.manager.pending
    ∙ rw waits (or_true (has_field f flight.batch.fields)))
meets Answer.lost_request flight s f (inr (inl (inl later))) = inr (inl later)
meets Answer.lost_request flight s f (inr (inl (inr (own, same)))) =
    inl (waiting-requeue flight.batch.key f flight.batch.fields s.manager.pending ∙ rw own refl)
meets Answer.lost_request flight s f (inr (inr (other, agrees))) = inr (inr agrees)
meets Answer.lost_answer flight s f (inl waits) = inl (
    waiting-requeue flight.batch.key f flight.batch.fields s.manager.pending
    ∙ rw waits (or_true (has_field f flight.batch.fields)))
meets Answer.lost_answer flight s f (inr (inl (inl later))) = inr (inl later)
meets Answer.lost_answer flight s f (inr (inl (inr (own, same)))) =
    inl (waiting-requeue flight.batch.key f flight.batch.fields s.manager.pending ∙ rw own refl)
meets Answer.lost_answer flight s f (inr (inr (other, agrees))) = inr (inr (rw other agrees))

-- An answer, of whatever kind.
pub answer_request-Accounted :
    (answer : Answer) (s : Session) (f : ℕ)
    → Accounted s f
    → Accounted (answer_request answer s).0 f
unfolding answer_request
answer_request-Accounted answer s f has = elim (Option-cases s.manager.in_flight) [
  | inl idle ↦ rw (idle, answer_request) has
  | inr (flight, flies) ↦
      rw (flies, answer_request)
        (proceed-Accounted flight.rest (after_answer answer flight s) f (
          meets answer flight s f (
            subst
              (λ o.
                (waiting f s.manager.pending ≡ true)
                ⊎ (Carried o s.document f ⊎ (Grounded o f × (s.server f ≡ s.document f))))
              flies has)))
]

Carried-elsewhere :
    (flight : Option Flight) (before after : ℕ → ℕ) (f : ℕ)
    → after f ≡ before f
    → Carried flight before f
    → Carried flight after f
Carried-elsewhere none before after f same carried = carried
Carried-elsewhere (some flight) before after f same (inl later) = inl later
Carried-elsewhere (some flight) before after f same (inr (own, was)) = inr (own, was ∙ sym same)

abbrev pub edited : (ℕ → ℕ) → ℕ → ℕ → Session → Session
edited group_for g value s = record s {
  manager = record (s.manager) {
    pending = add_pending (group_for g) g s.manager.pending;
    timer = true;
  };
  document = λ h. if h == g then value else s.document h;
}

pub edit_open :
    (group_for : ℕ → ℕ) (g value : ℕ) (s : Session)
    → s.manager.stopped ≡ false
    → edit group_for g value s ≡ edited group_for g value s
unfolding edit queue
edit_open group_for g value s open_ = elim (Bool-cases s.manager.stopped) [
  | inl shut ↦ cc
  | inr live ↦ ground (arith, open_)
]

pub edited-Accounted :
    (group_for : ℕ → ℕ) (g value : ℕ) (s : Session) (f : ℕ)
    → Accounted s f
    → Accounted (edited group_for g value s) f
edited-Accounted group_for g value s f has = elim (Bool-cases (g == f)) [
  | inl own ↦ inl (waiting-add_pending (group_for g) f g s.manager.pending ∙ rw own refl)
  | inr other ↦ elim has [
    | inl waits ↦
        inl (waiting-add_pending (group_for g) f g s.manager.pending ∙ rw waits (or_true (g == f)))
    | inr (inl carried) ↦ inr (
        inl (
          Carried-elsewhere s.manager.in_flight s.document (edited group_for g value s).document f
            (unchanged other) carried))
    | inr (inr (clear, agrees)) ↦ inr (inr (clear, agrees ∙ sym (unchanged other)))
  ]
]
  where
    unchanged : (g == f) ≡ false → (if f == g then value else s.document f) ≡ s.document f
    unchanged other = rw (==_false_sym g f other) refl
