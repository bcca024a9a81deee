-- ===== src/Tests/Redis.antt =====
-- A sorted set as the list of its scores and members: that the interface of the limiter's Redis
-- commands can be met.
use wedding_saas.Base.{
  ◌⊎◌, false, inr, count_if_mono, inl, not, leb, Option-cases, ◌≤◌, ◌<◌, ◌+◌, refl, if◌then◌else◌,
  arith, ◌∷◌, ◌==◌, ◌&&◌, true, some, none, ltb, keep, count_if, any, ◌≡◌, ℕ, length, [], Option,
  List, Bool,
}
use wedding_saas.RateLimit.SortedSet.{SortedSet, Member, one_if}

abbrev Entries : Type 0
Entries = List (ℕ × Member)

abbrev least : ℕ → Option ℕ → ℕ
least n none = n
least n (some m) = if leb n m then n else m

abbrev oldest_of : Entries → Option ℕ
oldest_of [] = none
oldest_of (e ∷ es) = some (least e.0 (oldest_of es))

abbrev same_member : Member → Member → Bool
same_member m n = (m.time == n.time) && (m.serial == n.serial)

abbrev has_member : Member → Entries → Bool
has_member m es = any (λ e. same_member m e.1) es

abbrev count_scores : (ℕ → Bool) → Entries → ℕ
count_scores p es = count_if (λ e. p e.0) es

abbrev trim : ℕ → ℕ → Entries → Entries
trim now window es = keep (λ e. ltb now (e.0 + window)) es

pub count_scores-trim :
    (p : ℕ → Bool) (now window : ℕ) (es : Entries)
    → count_scores p (trim now window es) ≡ count_scores (λ s. ltb now (s + window) && p s) es
count_scores-trim p now window [] = refl
count_scores-trim p now window (e ∷ es) = ground (arith, count_scores-trim p now window es)

pub length-count : (es : Entries) → length es ≡ count_scores (λ s. true) es
length-count [] = refl
length-count (e ∷ es) = omega (arith, length-count es)

pub has_member-trim :
    (m : Member) (now window : ℕ) (es : Entries)
    → has_member m (trim now window es) ≡ true
    → has_member m es ≡ true
has_member-trim m now window [] h = h
has_member-trim m now window (e ∷ es) h = ground (arith, has_member-trim m now window es)

pub oldest_of-none : (es : Entries) → oldest_of es ≡ none → length es ≡ 0
oldest_of-none [] h = refl
oldest_of-none (e ∷ es) h = cc

pub none_below :
    (es : Entries) (s n : ℕ) → oldest_of es ≡ some n → s ≤ n → count_scores (λ t. ltb t s) es ≡ 0
none_below [] s n h le = refl
none_below (e ∷ es) s n h le = elim (Option-cases (oldest_of es)) [
  | inl nothing ↦ ground (
    arith,
    oldest_of-none es nothing,
    count_if_mono (λ e. ltb e.0 s) (λ e. true) (λ e l. refl) es,
    length-count es,
  )
  | inr (m, there) ↦ ground (arith, none_below es s m there)
]

pub oldest_of-counted :
    (es : Entries) (s : ℕ) → oldest_of es ≡ some s → 0 < count_scores (λ t. t == s) es
oldest_of-counted [] s h = cc
oldest_of-counted (e ∷ es) s h = elim (Option-cases (oldest_of es)) [
  | inl nothing ↦ ground arith
  | inr (m, there) ↦ ground (arith, oldest_of-counted es m there)
]

pub count_scores-split :
    (p q : ℕ → Bool) (es : Entries)
    → count_scores p es
      ≡ count_scores (λ s. p s && q s) es + count_scores (λ s. p s && not (q s)) es
count_scores-split p q [] = refl
count_scores-split p q (e ∷ es) = ground (arith, count_scores-split p q es)

pub count-add :
    (p : ℕ → Bool) (score : ℕ) (m : Member) (es : Entries)
    → has_member m es ≡ false
    → count_scores p ((score, m) ∷ es) ≡ count_scores p es + one_if (p score)
count-add p score m es new = ground arith

pub has-add :
    (m n : Member) (score : ℕ) (es : Entries)
    → has_member m ((score, n) ∷ es) ≡ true
    → (m.serial ≡ n.serial) ⊎ (has_member m es ≡ true)
has-add m n score es h = ground arith

abbrev pub listed : SortedSet
listed = record {
  Z = Entries;
  nothing = [];
  remove_upto = trim;
  card = length;
  add = λ score m es. (score, m) ∷ es;
  oldest = oldest_of;
  count = count_scores;
  has = has_member;
  count-nothing = λ p. refl;
  count-remove_upto = count_scores-trim;
  card-count = length-count;
  count-add = count-add;
  has-nothing = λ m. refl;
  has-remove_upto = has_member-trim;
  has-add = has-add;
  oldest-least = λ es s h. none_below es s s h (omega arith);
  oldest-counted = oldest_of-counted;
  oldest-none = oldest_of-none;
  count-split = count_scores-split;
}
