-- ===== src/Midtrans/Rule.antt =====
-- The outcome that the words of Midtrans's statuses stand for, and the number of its digits.
use wedding_saas.Slug.Service.{same_units, units}
use wedding_saas.Outcomes.{PaymentOutcome}
use wedding_saas.Midtrans.Gateway.{big_int, normalize_midtrans_status}
use wedding_saas.Base.{
  any, [], ◌∷◌, ◌&&◌, Bool, String, ◌*◌, ◌-◌, ◌+◌, if◌then◌else◌, none, some, Option, ℕ, List, ◌≡◌,
  refl, arith,
}

-- What a purchase that the provider settled or captured comes to, by its code and its fraud status
abbrev pub review_rule : List ℕ → Option (List ℕ) → PaymentOutcome
review_rule code none =
    if same_units code (units "200") then PaymentOutcome.success else PaymentOutcome.ignored
review_rule code (some fraud) =
    if same_units fraud (units "deny")
    then PaymentOutcome.failed
    else if same_units fraud (units "challenge")
    then PaymentOutcome.pending
    else if same_units fraud (units "accept") && same_units code (units "200")
    then PaymentOutcome.success
    else PaymentOutcome.ignored

abbrev pub one_of : List ℕ → List String → Bool
one_of status words = any (λ w. same_units status (units w)) words

-- The rule of the statuses, by words
abbrev pub outcome_rule : List ℕ → List ℕ → Option (List ℕ) → PaymentOutcome
outcome_rule status code fraud =
    if one_of status ("settlement" ∷ "capture" ∷ [])
    then review_rule code fraud
    else if one_of status ("pending" ∷ [])
    then PaymentOutcome.pending
    else if one_of status ("deny" ∷ "cancel" ∷ "expire" ∷ "failure" ∷ [])
    then PaymentOutcome.failed
    else PaymentOutcome.ignored

pub outcome_rule-normalize :
    (status code : List ℕ) (fraud : Option (List ℕ))
    → normalize_midtrans_status status code fraud ≡ outcome_rule status code fraud
unfolding normalize_midtrans_status
outcome_rule-normalize status code none = ground arith
outcome_rule-normalize status code (some fraud) = ground arith

-- The number that decimal digits write, after those of `n`
abbrev pub decimal : ℕ → List ℕ → ℕ
decimal n [] = n
decimal n (c ∷ cs) = decimal (n * 10 + (c - 48)) cs

pub big_int-decimal : (n : ℕ) (cs : List ℕ) → big_int n cs ≡ decimal n cs
big_int-decimal n [] = refl
big_int-decimal n (c ∷ cs) = big_int-decimal (n * 10 + (c - 48)) cs
