-- ===== src/Lib.antt =====
-- wedding-saas: the core of the backend, as functions on its tables and on its Redis keys, and the
-- queues of the web app's editor, as functions on their state.
--
-- The program sells wedding invitations. A user drafts an invitation, checks out an order for a
-- package, pays through a provider whose webhook settles the order, and publishes; an invitation
-- expires and is renewed. One service decides every change of an invitation's status and writes
-- its history; orders and payments change it only through that service. A rate limiter in Redis
-- stands before the requests, and workers run the jobs, each once. The editor saves what the user
-- types in the background, and uploads photos a few at a time.
--
-- Files, and the code that they model:
--   Errors      backend/api/src/http/errors.ts
--   Db          backend/api/src/infra/db/schema/{invitations,orders}.ts: rows as records, tables
--               as lists, a transaction as a function that returns the tables or throws
--   Status      backend/api/src/shared/invitation-status/invitation-status.service.ts
--               Rules (the table, assertAllowed), Service (transitionWithin, recordCreation),
--               Edges (who may make which), Laws, Journey, Frame
--   Order       backend/api/src/modules/order/{order,pricing}.service.ts and
--               backend/api/src/shared/tenancy/order-repository.ts
--               Repository (the queries), Pricing (calculate), Settlement (settlePaid,
--               settleFailed, the expiry sweep), Checkout (create, withPayableOrder), Settled,
--               Granted, Renewed, Kept, Fulfilled, Priced
--   Outcomes    the unions of words that those services exchange
--   Payment     backend/api/src/modules/payment/payment-webhook.service.ts and the statements of
--               payment.repository.ts: Repository, Webhook (handle, applyVerified, apply), Arrivals
--               (sequences of verified events from every source), Kept, Processed, Queued, Once,
--               Again; and
--               payment.service.ts: Initiation, Pages, OnePage;
--               payment-{status,reconciliation}.service.ts: Queries
--               (the provider's answers), StatusService, Polled, Throttled; Reconciliation, Due,
--               Steps, Reconciled
--   Tokens      backend/api/src/modules/auth/tokens/{refresh-token,single-use-token}.service.ts
--               Refresh (issue, rotate, revoke), Rotation, Theft, SingleUse (issue, consume),
--               Redeemed
--   Publishing  backend/api/src/modules/publishing/{publish,unpublish,invitation-expiry}.service.ts
--               and backend/api/src/modules/order/entitlements.service.ts: Entitlements, Publish,
--               Unpublish, Expiry (the daily sweep), Overdue, Validity (the grants as a
--               relation), Published, Trial, Gate, Resumed, Cleared
--   Worker      backend/worker/src/{idempotency,leader-election}.ts: StringKey (Redis's commands on
--               one key, an interface with laws), Idempotency, Leader, Lease, OneLeader;
--               backend/worker/src/{runner,jobs}.ts: Runner, Attempts
--   Admin       backend/api/src/modules/admin/admin-orders.service.ts (refundOrder): Refund, Refunded,
--               RefundOnce
--   Editor      frontend/web-app/src/editor: autosave.ts with the edit of EditorProvider.tsx and the
--               save of transport.ts: Autosave, Accounted, Saved, Drained; the save indicator of
--               store.ts: Store; media/reorder.ts: Reorder (moveItem), Sender (ReorderSender)
--   Slug        backend/api/src/modules/invitation/slug.service.ts and `slugTaken` of
--               backend/api/src/shared/tenancy/invitation-repository.ts: Service, Accepted,
--               Blocked, Free
--   Schema      packages/schema/src/resolver/{resolve-path,completeness}.ts,
--               packages/schema/src/invitation/field-registry.ts and
--               backend/api/src/modules/invitation/publish-check.service.ts: Resolve, Completeness,
--               Registry, Empty, Filled, Ready
--   Upload      frontend/web-app/src/editor/media/upload-queue.ts: Queue; Pumped, Slots, Covered,
--               Endings, Drained
--   Midtrans    backend/api/src/modules/payment/midtrans/midtrans.gateway.ts: Gateway (the
--               verification, the status rule, the reading of a status response), Rule, Formats, Signed,
--               Fulfilled (with the settlement of orders)
--   RateLimit   backend/api/src/shared/rate-limit/{rate-limiter,policies}.ts
--               Policy, SortedSet (Redis's commands, an interface with laws), Limiter (the script,
--               check, block, unblock, isBlocked), Window (sequences of calls), Sliding, Retry
--   Tests       the theorems at concrete inputs, and a sorted set and a string key
--               that meet the interfaces
--   Base        lists over native numbers, Boolean tests, results, tables
--
-- Names keep the source's words in snake_case: `transitionWithin` is `transition_within`. Ids,
-- references and hashes are natural numbers; money is a natural number, as it is a bigint in the
-- source; times are seconds in the tables and milliseconds in the limiter,
-- the tokens and the leader's lease. `now` is an argument.
--
-- Loops run over lists, and none needs fuel but the pump of the upload queue, which gets the number
-- of items, as each turn starts one (Upload.Pumped). Row locks are what makes a transaction's steps
-- one step, but for issueToken, which takes no lock and is one step here only because requests for
-- links are taken one after the other; a row that another transaction holds is an argument (`held`) where the source skips
-- locked rows.
--
-- Parameters stand for what the program only calls: month arithmetic of Postgres (`add_months`),
-- the hashes of a request and of an idempotency key, the form of a UUID, the provider's
-- verification of a notification (which Midtrans fills in, over SHA-512 as a parameter), its answers
-- to a request for a page and to a query, the random draws of tokens and references, the keyed hash
-- of a token, what Number makes of a path's segment, and Redis's commands on a string key and on a
-- sorted set. The readiness
-- check and the answer of the slug check are arguments of publishing. The limiter's process is
-- one: its members `now-counter` are told apart by the process's counter.
--
-- Not modelled: HTTP and its guards, logging and metrics, login and registration (hashing, TOTP and
-- OAuth are libraries), the content of invitations, media, RSVP and the guestbook (rows that are
-- stored and listed), the public page and its cache, the admin listings, e-mail, invoices, rendering,
-- the rest of the front ends, the worker's handlers and the deployment.
pub mod Admin
pub mod Base
pub mod Errors
pub mod Status
pub mod Outcomes
pub mod Db
pub mod Payment
pub mod Midtrans
pub mod RateLimit
pub mod Order
pub mod Tokens
pub mod Publishing
pub mod Worker
pub mod Editor
pub mod Upload
pub mod Slug
pub mod Schema
pub mod Tests
