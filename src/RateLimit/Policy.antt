-- ===== src/RateLimit/Policy.antt =====
-- backend/api/src/shared/rate-limit/policies.ts: a policy's numbers, the exempt paths, and the
-- duration of a block.
use wedding_saas.Base.{ℕ, ◌*◌, ◌^◌, ◌-◌, min, String, Bool, List, [], ◌∷◌, any}
use text.Mathlib.Text.{starts_with}

-- The name and the kind of key only choose the Redis key, which the model fixes.
pub record RateLimitPolicy : Type 0 where
  pub limit : ℕ
  pub window_seconds : ℕ
  pub on_failure_only : Bool
  pub fail_closed : Bool

abbrev pub block_base_seconds : ℕ
block_base_seconds = 900

abbrev pub block_max_seconds : ℕ
block_max_seconds = 86400

abbrev pub strike_ttl_seconds : ℕ
strike_ttl_seconds = 86400

-- `-` stops at 0, as `Math.max(0, strike - 1)` does.
unfoldable pub block_duration_seconds : ℕ → ℕ
block_duration_seconds strike = min (block_base_seconds * 2 ^ (strike - 1)) block_max_seconds

abbrev exempt_path_prefixes : List String
exempt_path_prefixes = "/api/webhooks/" ∷ "/health" ∷ "/healthz" ∷ "/readyz" ∷ []

unfoldable pub is_exempt_path : String → Bool
is_exempt_path path = any (λ prefix. starts_with path prefix) exempt_path_prefixes
