-- ===== src/RateLimit/SortedSet.antt =====
-- The Redis sorted set that the limiter's script works on, as an interface: the commands that it
-- calls, and what their documentation says of the scores and the members. A set is observed by
-- how many of its members have a score with a given property.
use wedding_saas.Base.{
  not, ◌⊎◌, ℕ, ◌+◌, ◌<◌, ◌≡◌, Bool, true, false, ◌&&◌, Option, none, some, ltb, ◌==◌, if◌then◌else◌,
}

-- A member of the window: the time and the process's running counter, "now-counter".
pub record Member : Type 0 where
  pub time : ℕ
  pub serial : ℕ

abbrev pub one_if : Bool → ℕ
one_if b = if b then 1 else 0

pub record SortedSet : Type 1 where
  pub Z : Type 0
  -- a key that does not exist
  pub nothing : Z
  -- ZREMRANGEBYSCORE key -inf (now - window)
  pub remove_upto : ℕ → ℕ → Z → Z
  -- ZCARD key
  pub card : Z → ℕ
  -- ZADD key score member
  pub add : ℕ → Member → Z → Z
  -- the score of ZRANGE key 0 0 WITHSCORES
  pub oldest : Z → Option ℕ
  pub count : (ℕ → Bool) → Z → ℕ
  pub has : Member → Z → Bool
  pub count-nothing : (p : ℕ → Bool) → count p nothing ≡ 0
  pub count-remove_upto :
      (p : ℕ → Bool) (now window : ℕ) (z : Z)
      → count p (remove_upto now window z) ≡ count (λ s. ltb now (s + window) && p s) z
  pub card-count : (z : Z) → card z ≡ count (λ s. true) z
  -- a member that is not there is added
  pub count-add :
      (p : ℕ → Bool) (score : ℕ) (m : Member) (z : Z)
      → has m z ≡ false
      → count p (add score m z) ≡ count p z + one_if (p score)
  pub has-nothing : (m : Member) → has m nothing ≡ false
  pub has-remove_upto :
      (m : Member) (now window : ℕ) (z : Z)
      → has m (remove_upto now window z) ≡ true
      → has m z ≡ true
  pub has-add :
      (m n : Member) (score : ℕ) (z : Z)
      → has m (add score n z) ≡ true
      → (m.serial ≡ n.serial) ⊎ (has m z ≡ true)
  -- the first element has the least score
  pub oldest-least : (z : Z) (s : ℕ) → oldest z ≡ some s → count (λ t. ltb t s) z ≡ 0
  pub oldest-counted : (z : Z) (s : ℕ) → oldest z ≡ some s → 0 < count (λ t. t == s) z
  pub oldest-none : (z : Z) → oldest z ≡ none → card z ≡ 0
  -- a second property splits the members that have the first
  pub count-split :
      (p q : ℕ → Bool) (z : Z)
      → count p z ≡ count (λ s. p s && q s) z + count (λ s. p s && not (q s)) z
