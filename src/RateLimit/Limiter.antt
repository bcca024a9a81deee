-- ===== src/RateLimit/Limiter.antt =====
-- backend/api/src/shared/rate-limit/rate-limiter.ts for one policy and one key: `WINDOW_SCRIPT`,
-- `check`, `block`, `unblock`, `isBlocked` and `onRedisFailure`. Times are in milliseconds; Redis
-- and the process read one clock.
use wedding_saas.Base.{
  ℕ, ◌+◌, ◌-◌, ◌*◌, ◌/◌, max, Bool, true, false, ◌&&◌, ◌||◌, not, Option, none, some, ltb, leb,
  if◌then◌else◌, Outcome, ok, thrown,
}
use wedding_saas.RateLimit.Policy.{RateLimitPolicy, strike_ttl_seconds, block_duration_seconds}
use wedding_saas.RateLimit.SortedSet.{SortedSet, Member}

pub record RateLimitDecision : Type 0 where
  pub allowed : Bool
  pub limit : ℕ
  pub remaining : ℕ
  -- seconds
  pub reset_at : ℕ
  pub retry_after_seconds : Option ℕ
  pub blocked : Bool

-- `RateLimiterUnavailableError`, which becomes a 503
pub data Unavailable : Type 0 where
  unavailable : Unavailable

-- `Math.ceil(ms / 1000)`
abbrev pub ceil_seconds : ℕ → ℕ
ceil_seconds ms = (ms + 999) / 1000

module _ (redis : SortedSet) where
  open redis use {Z, nothing, remove_upto, card, add, oldest}

  -- What Redis stores for the key, and the process's counter. A key is gone at its expiry time.
  pub record State : Type 0 where
    pub window : Z
    pub window_expires : ℕ
    pub blocked_until : ℕ
    pub strikes : ℕ
    pub strikes_expire : ℕ
    pub counter : ℕ

  pub record ScriptResult : Type 0 where
    pub allowed : Bool
    pub count : ℕ
    pub oldest_ms : ℕ
    pub window : Z

  abbrev pub or_zero : Option ℕ → ℕ
  or_zero none = 0
  or_zero (some n) = n

  -- WINDOW_SCRIPT
  unfoldable pub window_script : ℕ → ℕ → ℕ → Member → Bool → Z → ScriptResult
  window_script now window limit member consume z =
      let trimmed = remove_upto now window z in
      let count = card trimmed in
      let allowed = ltb count limit in
      let adds = allowed && consume in
      let kept = if adds then add now member trimmed else trimmed in
      record {
        allowed = allowed;
        count = if adds then count + 1 else count;
        oldest_ms = or_zero (oldest kept);
        window = kept;
      }

  -- PTTL of the block key; 0 for a key that is not there (Redis says -2)
  abbrev pub pttl : ℕ → ℕ → ℕ
  pttl now until = until - now

  abbrev pub live_window : ℕ → State → Z
  live_window now s = if leb s.window_expires now then nothing else s.window

  abbrev decision_of : RateLimitPolicy → ℕ → ScriptResult → RateLimitDecision
  decision_of policy now r =
      let reset_ms =
        if ltb 0 r.oldest_ms then r.oldest_ms + policy.window_seconds * 1000 else now in
      if r.allowed
      then record {
        allowed = true;
        limit = policy.limit;
        remaining = policy.limit - r.count;
        reset_at = ceil_seconds reset_ms;
        retry_after_seconds = none;
        blocked = false;
      }
      else record {
        allowed = false;
        limit = policy.limit;
        remaining = 0;
        reset_at = ceil_seconds reset_ms;
        retry_after_seconds = some (max 1 (ceil_seconds (reset_ms - now)));
        blocked = false;
      }

  -- `check` with Redis in reach
  unfoldable pub check_redis : RateLimitPolicy → Bool → ℕ → State → State × RateLimitDecision
  unfolding window_script
  check_redis policy consume now s =
      let until = pttl now s.blocked_until in
      let serial = s.counter + 1 in
      let window = policy.window_seconds * 1000 in
      let r =
        window_script now window policy.limit (record { time = now; serial = serial }) consume
          (live_window now s) in
      if ltb 0 until
      then (
        s,
        record {
          allowed = false;
          limit = policy.limit;
          remaining = 0;
          reset_at = ceil_seconds (now + until);
          retry_after_seconds = some (ceil_seconds until);
          blocked = true;
        },
      )
      else (
        record s { window = r.window; window_expires = now + window; counter = serial },
        decision_of policy now r,
      )

  abbrev pub unthrottled : RateLimitPolicy → ℕ → RateLimitDecision
  unthrottled policy now = record {
    allowed = true;
    limit = policy.limit;
    remaining = policy.limit;
    reset_at = ceil_seconds now + policy.window_seconds;
    retry_after_seconds = none;
    blocked = false;
  }

  unfoldable pub on_redis_failure : RateLimitPolicy → ℕ → Outcome Unavailable RateLimitDecision
  on_redis_failure policy now =
      if policy.fail_closed then thrown unavailable else ok (unthrottled policy now)

  -- `options.consume ?? !policy.onFailureOnly`
  abbrev pub consumes : RateLimitPolicy → Option Bool → Bool
  consumes policy none = not policy.on_failure_only
  consumes policy (some consume) = consume

  -- `check`. With Redis out of reach the state is unknown to the process, and stays.
  unfoldable pub check :
      Bool
      → RateLimitPolicy
      → Option Bool
      → ℕ
      → State
      → State × Outcome Unavailable RateLimitDecision
  unfolding check_redis on_redis_failure
  check reachable policy consume now s =
      let (s', d) = check_redis policy (consumes policy consume) now s in
      if reachable then (s', ok d) else (s, on_redis_failure policy now)

  -- `recordFailure` swallows what `check` throws.
  unfoldable pub record_failure : Bool → RateLimitPolicy → ℕ → State → State
  unfolding check
  record_failure reachable policy now s = (check reachable policy (some true) now s).0

  -- `block`: INCR and EXPIRE of the strikes, SET EX of the block; 0 when Redis is out of reach
  unfoldable pub block : Bool → ℕ → State → State × ℕ
  unfolding block_duration_seconds
  block reachable now s =
      let strike = if leb s.strikes_expire now then 1 else s.strikes + 1 in
      let seconds = block_duration_seconds strike in
      if reachable
      then (
        record s {
          strikes = strike;
          strikes_expire = now + strike_ttl_seconds * 1000;
          blocked_until = now + seconds * 1000;
        },
        seconds,
      )
      else (s, 0)

  -- `unblock`: DEL of both keys, and whether one of them was there
  unfoldable pub unblock : Bool → ℕ → State → State × Bool
  unblock reachable now s =
      if reachable
      then (
        record s { blocked_until = 0; strikes = 0; strikes_expire = 0 },
        ltb now s.blocked_until || ltb now s.strikes_expire,
      )
      else (s, false)

  -- `isBlocked`
  unfoldable pub is_blocked : Bool → ℕ → State → Bool
  is_blocked reachable now s = reachable && ltb 0 (pttl now s.blocked_until)
