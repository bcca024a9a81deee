-- ===== src/Errors.antt =====
-- backend/api/src/http/errors.ts: the errors that services throw, by class and machine-readable
-- code. The human-readable messages are left out.
use wedding_saas.Base.{Bool, true, false, ℕ, List, Option}

pub data Code : Type 0 where
  invalid_status_transition reason_required : Code
  package_not_available addon_not_available : Code
  active_order_exists order_not_allowed order_not_payable idempotency_key_reused : Code
  incomplete_invitation slug_required slug_taken slug_blocked slug_invalid : Code
  payment_not_found payment_required payment_pending renewal_required trial_already_used : Code
  invitation_already_published invitation_not_published : Code
  order_not_paid unavailable : Code
  email_not_verified payment_in_progress payment_unavailable : Code

pub data AppError : Type 0 where
  not_found : AppError
  unauthenticated : AppError
  forbidden : Code → AppError
  -- the offending ids of `ValidationError`'s details
  validation : List ℕ → AppError
  business_rule : Code → AppError
  -- `ConflictError`, with the id that its details name
  conflict : Code → Option ℕ → AppError
  -- `ServiceUnavailableError`
  service_unavailable : Code → AppError
  -- `throw new Error(…)`
  internal : AppError

-- `error instanceof BusinessRuleError && error.code === "INVALID_STATUS_TRANSITION"`
unfoldable pub is_invalid_transition : AppError → Bool
is_invalid_transition (business_rule invalid_status_transition) = true
is_invalid_transition _ = false
