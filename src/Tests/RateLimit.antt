-- ===== src/Tests/RateLimit.antt =====
-- The limiter's theorems at a policy of two requests a minute.
use wedding_saas.RateLimit.Sliding.{last_time, sliding_window_bounded}
use wedding_saas.RateLimit.Retry.{retry_after_suffices}
use wedding_saas.RateLimit.Window.{
  pardon, penalty, attempt, serve, in_window, fresh, Call, serve_all,
}
use wedding_saas.RateLimit.Policy.{block_duration_seconds, RateLimitPolicy}
use wedding_saas.RateLimit.Limiter.{unblock, window_script, check_redis, block, State}
use wedding_saas.Base.{refl, ◌≤◌, ◌+◌, arith, ◌∷◌, [], ◌≡◌, ◌*◌, true, false, count_if, List}
use wedding_saas.Tests.Redis.{listed}

abbrev two_a_minute : RateLimitPolicy
two_a_minute = record {
  limit = 2;
  window_seconds = 60;
  on_failure_only = false;
  fail_closed = true;
}

-- the third request is refused
abbrev three_attempts : List Call
three_attempts =
    attempt true 1000 ∷ attempt true 2000 ∷ penalty 2500 ∷ pardon 2600 ∷ attempt true 3000 ∷ []

abbrev two_attempts : List Call
two_attempts = attempt true 1000 ∷ attempt true 2000 ∷ []

abbrev start : State listed
start = fresh listed two_a_minute

three_attempts_served : (serve_all listed two_a_minute three_attempts start []).1 ≡ 2000 ∷ 1000 ∷ []
unfolding serve_all serve check_redis window_script block unblock block_duration_seconds
three_attempts_served = refl

sliding_window_bounded_example :
    count_if (in_window (60 * 1000) 3000) (serve_all listed two_a_minute three_attempts start []).1
    ≤ 2
sliding_window_bounded_example =
    sliding_window_bounded listed two_a_minute three_attempts 3000
      (omega arith, (omega arith, (omega arith, (omega arith, (omega arith, tt)))))

retry_after_suffices_example :
    let s = (serve_all listed two_a_minute two_attempts start []).0 in
    (check_redis listed two_a_minute true
      (3000 + 58 * 1000)
      (check_redis listed two_a_minute true 3000 s).0).1.allowed
    ≡ true
unfolding serve_all serve check_redis window_script last_time
retry_after_suffices_example =
    retry_after_suffices listed two_a_minute two_attempts 3000 58 true true (omega arith)
      (omega arith, (omega arith, tt)) (omega arith) refl refl refl
