-- ===== src/Worker/StringKey.antt =====
-- One string key of Redis with an expiry, as an interface: the commands that the worker calls, with
-- the time at which Redis runs them, and what their documentation says.
use wedding_saas.Base.{ℕ, ◌+◌, ◌≤◌, ◌≡◌, Bool, true, false, Option, none, some, ltb, if◌then◌else◌}

pub record StringKey (V : Type 0) : Type 1 where
  pub S : Type 0
  -- GET key
  pub get : ℕ → S → Option V
  -- SET key value EX ttl: the value, the time to live and the time
  pub set : V → ℕ → ℕ → S → S
  -- SET key value EX ttl NX, and whether it was set
  pub set_nx : V → ℕ → ℕ → S → Bool × S
  -- PEXPIRE key ttl
  pub expire : ℕ → ℕ → S → S
  -- DEL key
  pub del : ℕ → S → S
  pub get-set :
      (v : V) (ttl now later : ℕ) (s : S)
      → now ≤ later
      → get later (set v ttl now s) ≡ (if ltb later (now + ttl) then some v else none)
  pub set_nx-free :
      (v : V) (ttl now : ℕ) (s : S)
      → get now s ≡ none
      → set_nx v ttl now s ≡ (true, set v ttl now s)
  pub set_nx-held :
      (v w : V) (ttl now : ℕ) (s : S) → get now s ≡ some w → set_nx v ttl now s ≡ (false, s)
  pub get-expire :
      (v : V) (ttl now later : ℕ) (s : S)
      → get now s ≡ some v
      → now ≤ later
      → get later (expire ttl now s) ≡ (if ltb later (now + ttl) then some v else none)
  pub get-del : (now later : ℕ) (s : S) → now ≤ later → get later (del now s) ≡ none
  -- a key that expired stays so
  pub get-later : (now later : ℕ) (s : S) → get now s ≡ none → now ≤ later → get later s ≡ none
  -- and keeps its value until then
  pub get-kept :
      (v w : V) (now later : ℕ) (s : S)
      → get now s ≡ some v
      → now ≤ later
      → get later s ≡ some w
      → w ≡ v
