-- ===== src/Worker/Idempotency.antt =====
-- backend/worker/src/idempotency.ts, on the key of one job and idempotency key. Times are seconds.
-- Each command runs at a time and on the key as it stands then, which other workers may have changed
-- between two commands of one call.
use wedding_saas.Base.{some, if◌then◌else◌, Option, Bool, ℕ, true, false}
use wedding_saas.Worker.StringKey.{StringKey}

pub record IdempotencyResult : Type 0 where
  pub claimed : Bool
  pub already_processed : Bool

abbrev pub lease_seconds : ℕ
lease_seconds = 900

abbrev pub completed_seconds : ℕ
completed_seconds = 86400

-- CLAIMED and DONE
pub data Mark : Type 0 where
  in_work done : Mark

abbrev pub is_done : Option Mark → Bool
is_done (some done) = true
is_done _ = false

abbrev pub is_in_work : Option Mark → Bool
is_in_work (some in_work) = true
is_in_work _ = false

module _ (redis : StringKey Mark) where
  -- `SET … NX` of `claim`
  abbrev pub take_claim : ℕ → redis.S → Bool × redis.S
  take_claim now s = redis.set_nx in_work lease_seconds now s

  -- `claim`: `later` and `seen` are when and what the read after a lost claim finds.
  unfoldable pub claim : ℕ → redis.S → ℕ → redis.S → IdempotencyResult × redis.S
  claim now s later seen =
      let (won, after) = take_claim now s in
      (
        if won
            then record { claimed = true; already_processed = false }
            else record { claimed = false; already_processed = is_done (redis.get later seen) },
        after,
      )

  -- `markProcessed`
  unfoldable pub mark_processed : ℕ → redis.S → redis.S
  mark_processed now s = redis.set done completed_seconds now s

  -- `release`: the read, and the deletion that follows it on the key as it stands `later`
  unfoldable pub release : ℕ → redis.S → ℕ → redis.S → redis.S
  release now seen later s = if is_in_work (redis.get now seen) then redis.del later s else s
