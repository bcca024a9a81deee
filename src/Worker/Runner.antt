-- ===== src/Worker/Runner.antt =====
-- backend/worker/src/runner.ts (`run` and `onFailed`) over the policies of jobs.ts, and the
-- claims of idempotency.ts. The queue is BullMQ's: it calls `run` for an attempt, and `onFailed` when
-- the call threw, with the number of attempts made. No other worker uses the key during a call.
use wedding_saas.Base.{[], ◌∷◌, ◌++◌, leb, not, if◌then◌else◌, false, List, ℕ, true, Bool}
use wedding_saas.Worker.Idempotency.{release, mark_processed, claim, Mark}
use wedding_saas.Worker.StringKey.{StringKey}

pub data Pool : Type 0 where
  media general cron : Pool

pub data Priority : Type 0 where
  high medium low : Priority

pub record JobPolicy : Type 0 where
  pub pool : Pool
  pub priority : Priority
  -- with the first
  pub attempts : ℕ
  pub dead_letter : Bool

pub data JobName : Type 0 where
  payment_webhook_process invoice_generate media_process notification_send : JobName
  cache_invalidate media_cleanup_staging order_expire_check invitation_expiry_check : JobName
  invitation_soft_delete_cleanup reminder_email_h7_h1 rsvp_daily_digest : JobName
  payment_reconciliation analytics_counter_flush : JobName

abbrev policy : Pool → Priority → ℕ → Bool → JobPolicy
policy pool priority attempts dead_letter = record {
  pool = pool;
  priority = priority;
  attempts = attempts;
  dead_letter = dead_letter;
}

-- JOBS and CRON_JOBS
unfoldable pub policy_for : JobName → JobPolicy
policy_for payment_webhook_process = policy general high 5 true
policy_for invoice_generate = policy general medium 3 true
policy_for media_process = policy media high 3 true
policy_for notification_send = policy general medium 3 true
policy_for cache_invalidate = policy general medium 3 true
policy_for media_cleanup_staging = policy cron low 1 false
policy_for order_expire_check = policy cron medium 3 true
policy_for invitation_expiry_check = policy cron low 3 false
policy_for invitation_soft_delete_cleanup = policy cron low 3 false
policy_for reminder_email_h7_h1 = policy cron medium 3 true
policy_for rsvp_daily_digest = policy cron medium 3 true
policy_for payment_reconciliation = policy cron low 1 false
policy_for analytics_counter_flush = policy cron low 1 false

-- What the handler does: it returns, it throws, or the process dies in it.
pub data Handling : Type 0 where
  returns throws dies : Handling

-- `status` of the log, or the end of the process. A run throws when it `failed`, and the queue takes
-- every other run that ends for done.
pub data RunResult : Type 0 where
  success failed skipped_already_processed skipped_in_progress died : RunResult

abbrev pub skipped : Bool → RunResult
skipped true = skipped_already_processed
skipped false = skipped_in_progress

module _ (redis : StringKey Mark) where
  abbrev pub handled : Bool → Handling → ℕ → redis.S → RunResult × redis.S
  handled keyed returns ended s = (success, if keyed then mark_processed redis ended s else s)
  handled keyed throws ended s = (failed, if keyed then release redis ended s ended s else s)
  handled keyed dies ended s = (died, s)

  -- `run` of a payload with an idempotency key or without, from `now` until the handler's end
  unfoldable pub run : Bool → Handling → ℕ → ℕ → redis.S → RunResult × redis.S
  run keyed handling now ended s =
      if keyed
      then (let (result, after) = claim redis now s now s in
          if result.claimed
          then handled true handling ended after
          else (skipped result.already_processed, after))
      else handled false handling ended s

-- An entry of the dead-letter queue
pub record DeadLetter : Type 0 where
  pub job_name : JobName
  pub priority : Priority
  pub attempts_made : ℕ
  pub payload : ℕ

-- `onFailed`, of a job that the event names
unfoldable pub on_failed : JobName → ℕ → ℕ → List DeadLetter → List DeadLetter
unfolding policy_for
on_failed name payload attempts_made dead_letters =
    let p = policy_for name in
    if not (leb p.attempts attempts_made)
    then dead_letters
    else if not p.dead_letter
    then dead_letters
    else dead_letters
      ++ record {
        job_name = name;
        priority = p.priority;
        attempts_made = attempts_made;
        payload = payload;
      }
        ∷ []
