-- ===== src/RateLimit/Window.antt =====
-- The sliding window over every sequence of calls on one key.
use wedding_saas.RateLimit.Policy.{RateLimitPolicy}
use wedding_saas.Base.{[], ◌+◌, true, ◌≤◌, ltb, ◌∷◌, ◌&&◌, if◌then◌else◌, leb, List, ℕ, Bool}
use wedding_saas.RateLimit.SortedSet.{SortedSet}
use wedding_saas.RateLimit.Limiter.{unblock, block, check_redis, RateLimitDecision, State}

pub data Call : Type 0 where
  -- `check` with this `consume`, at this time
  attempt : Bool → ℕ → Call
  penalty : ℕ → Call
  pardon : ℕ → Call

abbrev pub time_of : Call → ℕ
time_of (attempt consume now) = now
time_of (penalty now) = now
time_of (pardon now) = now

-- The clock does not go back.
abbrev pub IsOrdered : ℕ → List Call → Type 0
IsOrdered now [] = Unit
IsOrdered now (c ∷ cs) = (now ≤ time_of c) × IsOrdered (time_of c) cs

-- The requests admitted and counted in the window of `width` that ends at a time.
abbrev pub in_window : ℕ → ℕ → ℕ → Bool
in_window width end time = leb time end && ltb end (time + width)

module _ (redis : SortedSet) (policy : RateLimitPolicy) where
  abbrev pub fresh : State redis
  fresh = record {
    window = redis.nothing;
    window_expires = 0;
    blocked_until = 0;
    strikes = 0;
    strikes_expire = 0;
    counter = 0;
  }

  abbrev pub note_admitted : Bool → RateLimitDecision → ℕ → List ℕ → List ℕ
  note_admitted consume d now admitted = if consume && d.allowed then now ∷ admitted else admitted

  -- One call, and the times of the requests that were admitted and consumed a slot, latest first.
  unfoldable pub serve : Call → State redis → List ℕ → State redis × List ℕ
  serve (attempt consume now) s admitted =
      let (s', d) = check_redis redis policy consume now s in
      (s', note_admitted consume d now admitted)
  serve (penalty now) s admitted = ((block redis true now s).0, admitted)
  serve (pardon now) s admitted = ((unblock redis true now s).0, admitted)

  unfoldable pub serve_all : List Call → State redis → List ℕ → State redis × List ℕ
  serve_all [] s admitted = (s, admitted)
  serve_all (c ∷ cs) s admitted =
      let (s', admitted') = serve c s admitted in serve_all cs s' admitted'
