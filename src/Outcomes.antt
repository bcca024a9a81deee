-- ===== src/Outcomes.antt =====
-- The words that the payment tables and the services exchange: `SettlementResult` of
-- order.service.ts, `PaymentOutcome` of payment-gateway.port.ts, and `NotificationSource` and
-- `WebhookResult` of payment-webhook.service.ts.

pub data SettlementResult : Type 0 where
  applied late_payment duplicate_charge refunded_order applied_entitlement_skipped :
      SettlementResult

pub data PaymentOutcome : Type 0 where
  success failed pending ignored : PaymentOutcome

pub data NotificationSource : Type 0 where
  webhook query reconciliation : NotificationSource

-- The first five words of the union are the settlement's.
pub data WebhookResult : Type 0 where
  of_settlement : SettlementResult → WebhookResult
  duplicate failed failed_other_payment_live no_change ignored unknown_reference amount_mismatch :
      WebhookResult

-- The words of the column `payment_notifications.result`: a handled event's, or a finding's of the
-- reconciliation.
pub data NotificationResult : Type 0 where
  handled_as : WebhookResult → NotificationResult
  reconciliation_missing reconciliation_mismatch : NotificationResult
