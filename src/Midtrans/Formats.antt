-- ===== src/Midtrans/Formats.antt =====
-- What the regular expressions of the verification accept, and when a status is a success.
use wedding_saas.Outcomes.{PaymentOutcome}
use wedding_saas.Slug.Service.{units, same_units}
use wedding_saas.Midtrans.Gateway.{
  after_fraud_check, is_text, exec_gross_amount, is_order_id_unit, is_digit, more_digits,
  matches_order_id, at_most, normalize_midtrans_status, Checked,
}
use wedding_saas.Base.{
  if◌then◌else◌, Option-cases, some_injective, inr, ◌||◌, inl, Option, Bool-cases, ==_refl, ==_iff,
  ◌==◌, zero, suc, refl, leb, [], ◌∷◌, ◌++◌, ◌&&◌, none, ◌⊎◌, arith, ◌↔◌, true, length, all, ◌≤◌,
  ◌≡◌, ℕ, List, some,
}
use mathlib.Core.Path.{sym, ap}

abbrev pub IsOrderId : List ℕ → Type 0
IsOrderId t = (1 ≤ length t) × (length t ≤ 50) × (all is_order_id_unit t ≡ true)

-- `GROSS_AMOUNT`: one to fifteen digits and `.00`
abbrev pub IsAmount : List ℕ → List ℕ → Type 0
IsAmount digits t =
    (1 ≤ length digits)
    × (length digits ≤ 15)
    × (all is_digit digits ≡ true)
    × (t ≡ digits ++ units ".00")

-- What `more_digits` reads: at most n digits, and `.00`
abbrev IsRest : ℕ → List ℕ → List ℕ → Type 0
IsRest n ds t = (length ds ≤ n) × (all is_digit ds ≡ true) × (t ≡ ds ++ units ".00")

-- The documented rule of a success
abbrev pub IsSuccess : Checked → Type 0
IsSuccess f =
    ((f.transaction_status ≡ units "settlement") ⊎ (f.transaction_status ≡ units "capture"))
    × ((f.fraud_status ≡ none) ⊎ (f.fraud_status ≡ some (units "accept")))
    × (f.status_code ≡ units "200")

pub same_units_iff : (xs ys : List ℕ) → (same_units xs ys ≡ true) ↔ (xs ≡ ys)
same_units_iff [] [] = (λ h. refl, λ h. refl)
same_units_iff [] (y ∷ ys) = (λ h. absurd cc, λ h. absurd cc)
same_units_iff (x ∷ xs) [] = (λ h. absurd cc, λ h. absurd cc)
same_units_iff (x ∷ xs) (y ∷ ys) =
    let (to, from) = same_units_iff xs ys in
    (
      λ h.
          let a : (x == y) ≡ true = ground (arith, h) in
          let b : same_units xs ys ≡ true = ground (arith, h) in rw ((==_iff x y).0 a, to b) refl,
      λ h. let a : x ≡ y = cc in let b : xs ≡ ys = cc in rw (a, ==_refl y, from b) refl,
    )

at_most-all : (n : ℕ) (t : List ℕ) → at_most n t ≡ (all is_order_id_unit t && leb (length t) n)
at_most-all n [] = ground arith
at_most-all zero (c ∷ cs) = ground arith
at_most-all (suc n) (c ∷ cs) = ground (arith, at_most-all n cs)

pub matches_order_id-IsOrderId : (t : List ℕ) → (matches_order_id t ≡ true) ↔ IsOrderId t
matches_order_id-IsOrderId [] = (λ h. absurd cc, λ h. absurd (omega (arith, h.0)))
matches_order_id-IsOrderId (c ∷ cs) =
    rw (at_most-all 49 cs) (
      λ h. (omega arith, ground (arith, h), ground (arith, h)),
      λ (a, b, c_). ground (arith, b, c_),
    )

more_digits-IsRest : (n : ℕ) (t ds : List ℕ) → more_digits n t ≡ some ds → IsRest n ds t
more_digits-IsRest n [] ds h = absurd cc
more_digits-IsRest zero (c ∷ cs) ds h = elim (Bool-cases (same_units (c ∷ cs) (units ".00"))) [
  | inl cents ↦
      let e : ds ≡ [] = sym (some_injective (rw cents at h)) in
      rw e (omega arith, refl, (same_units_iff (c ∷ cs) (units ".00")).0 cents)
  | inr other ↦ let e : ◌≡◌ {A = Option (List ℕ)} none (some ds) = rw other at h in absurd cc
]
more_digits-IsRest (suc n) (c ∷ cs) ds h = elim (Bool-cases (is_digit c)) [
  | inl digit ↦ elim (Option-cases (more_digits n cs)) [
    | inl none_ ↦
        let e : ◌≡◌ {A = Option (List ℕ)} none (some ds) = rw (digit, none_) at h in absurd cc
    | inr (es, found) ↦
        let e : ds ≡ c ∷ es = sym (some_injective (rw (digit, found) at h)) in
        let (few, digits, whole) = more_digits-IsRest n cs es found in
        rw e (omega (arith, few), rw (digit, digits) refl, ap (λ u. c ∷ u) whole)
  ]
  | inr letter ↦ elim (Bool-cases (same_units (c ∷ cs) (units ".00"))) [
    | inl cents ↦
        let e : ds ≡ [] = sym (some_injective (rw (letter, cents) at h)) in
        rw e (omega arith, refl, (same_units_iff (c ∷ cs) (units ".00")).0 cents)
    | inr other ↦
        let e : ◌≡◌ {A = Option (List ℕ)} none (some ds) = rw (letter, other) at h in absurd cc
  ]
]

more_digits_read :
    (n : ℕ) (ds : List ℕ)
    → length ds ≤ n
    → all is_digit ds ≡ true
    → more_digits n (ds ++ units ".00") ≡ some ds
unfolding is_digit units
more_digits_read zero [] few digits = refl
more_digits_read (suc n) [] few digits = refl
more_digits_read zero (d ∷ ds) few digits = absurd (omega (arith, few))
more_digits_read (suc n) (d ∷ ds) few digits =
    let here : is_digit d ≡ true = ground (arith, digits) in
    let rest : all is_digit ds ≡ true = ground (arith, digits) in
    rw (here, more_digits_read n ds (omega (arith, few)) rest) refl

pub exec_gross_amount-IsAmount : (t ds : List ℕ) → exec_gross_amount t ≡ some ds → IsAmount ds t
exec_gross_amount-IsAmount [] ds h = absurd cc
exec_gross_amount-IsAmount (c ∷ cs) ds h = elim (Bool-cases (is_digit c)) [
  | inr letter ↦ let e : ◌≡◌ {A = Option (List ℕ)} none (some ds) = rw letter at h in absurd cc
  | inl digit ↦ elim (Option-cases (more_digits 14 cs)) [
    | inl none_ ↦
        let e : ◌≡◌ {A = Option (List ℕ)} none (some ds) = rw (digit, none_) at h in absurd cc
    | inr (es, found) ↦
        let e : ds ≡ c ∷ es = sym (some_injective (rw (digit, found) at h)) in
        let (few, digits, whole) = more_digits-IsRest 14 cs es found in
        rw e (omega arith, omega (arith, few), rw (digit, digits) refl, ap (λ u. c ∷ u) whole)
  ]
]

pub exec_gross_amount_read : (t ds : List ℕ) → IsAmount ds t → exec_gross_amount t ≡ some ds
exec_gross_amount_read t [] (some_, few, digits, whole) = absurd (omega (arith, some_))
exec_gross_amount_read t (d ∷ ds) (some_, few, digits, whole) =
    let here : is_digit d ≡ true = ground (arith, digits) in
    let rest : all is_digit ds ≡ true = ground (arith, digits) in
    rw whole (rw (here, more_digits_read 14 ds (omega (arith, few)) rest) refl)

after_fraud_check-success :
    (status_code : List ℕ) (fraud : Option (List ℕ))
    → after_fraud_check status_code fraud ≡ PaymentOutcome.success
    → ((fraud ≡ none) ⊎ (fraud ≡ some (units "accept"))) × (status_code ≡ units "200")
after_fraud_check-success status_code none h = elim (Bool-cases (is_text "200" status_code)) [
  | inl good ↦ (inl refl, (same_units_iff status_code (units "200")).0 good)
  | inr bad ↦ let e : PaymentOutcome.ignored ≡ PaymentOutcome.success = rw bad at h in absurd cc
]
after_fraud_check-success status_code (some fraud) h =
    let good : is_text "200" status_code ≡ true = ground (arith, h) in
    let accept : is_text "accept" fraud ≡ true = ground (arith, h) in
    (
      inr (ap some ((same_units_iff fraud (units "accept")).0 accept)),
      (same_units_iff status_code (units "200")).0 good,
    )

-- No other status gives a success.
not_paid :
    (t : List ℕ)
    → ¬ (
        (if is_text "pending" t
          then PaymentOutcome.pending
          else if is_text "deny" t
              || is_text "cancel" t
              || is_text "expire" t
              || is_text "failure" t
          then PaymentOutcome.failed
          else PaymentOutcome.ignored)
        ≡ PaymentOutcome.success)
not_paid t h = elim (Bool-cases (is_text "pending" t)) [
  | inl waits ↦ let e : PaymentOutcome.pending ≡ PaymentOutcome.success = rw waits at h in absurd cc
  | inr more ↦
      elim (Bool-cases
        (is_text "deny" t || is_text "cancel" t || is_text "expire" t || is_text "failure" t)) [
          | inl fails ↦
              let e : PaymentOutcome.failed ≡ PaymentOutcome.success = rw (more, fails) at h in
              absurd cc
          | inr rest ↦
              let e : PaymentOutcome.ignored ≡ PaymentOutcome.success = rw (more, rest) at h in
              absurd cc
        ]
]

pub normalize-success :
    (f : Checked)
    → (normalize_midtrans_status f.transaction_status f.status_code f.fraud_status
        ≡ PaymentOutcome.success)
    → IsSuccess f
unfolding normalize_midtrans_status
normalize-success f h =
    let t = f.transaction_status in
    let known : (is_text "settlement" t || is_text "capture" t) ≡ true =
      elim (Bool-cases (is_text "settlement" t || is_text "capture" t)) [
        | inl paid ↦ paid
        | inr other ↦ absurd (not_paid t (rw other at h))
      ] in
    let (fraud, code) = after_fraud_check-success f.status_code f.fraud_status (rw known at h) in
    let which : (t ≡ units "settlement") ⊎ (t ≡ units "capture") =
      elim (Bool-cases (is_text "settlement" t)) [
        | inl a ↦ inl ((same_units_iff t (units "settlement")).0 a)
        | inr a ↦ inr ((same_units_iff t (units "capture")).0 (rw a at known))
      ] in
    (which, fraud, code)
