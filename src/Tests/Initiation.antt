-- ===== src/Tests/Initiation.antt =====
-- A pending order whose owner opens the payment page twice.
use wedding_saas.Payment.OnePage.{initiate-OnePage}
use wedding_saas.Payment.Pages.{OnePage}
use wedding_saas.Payment.Initiation.{created, initiate, pending_row}
use wedding_saas.Base.{some, arith, [], ◌∷◌, List, ℕ, true}
use wedding_saas.Db.{Db, Payment}
use wedding_saas.Tests.Data.{draft_db}

abbrev plain_digest : ℕ → ℕ → List ℕ → ℕ
plain_digest invitation pkg addons = invitation

abbrev plain_key : ℕ → ℕ → ℕ
plain_key scope key = key

draft_db-OnePage : OnePage draft_db
draft_db-OnePage order_id provider = omega arith

initiate-OnePage_example :
    OnePage
      (initiate plain_digest plain_key
        (λ id. true)
        1
        7
        2
        1000
        40
        555
        (λ d. d)
        (created (8, 9))
        draft_db).1
initiate-OnePage_example =
    initiate-OnePage plain_digest plain_key (λ id. true) 1 7 2 1000 40 555 (λ d. d) (created (8, 9))
      draft_db (λ d one. one) draft_db-OnePage

abbrev open_payment : Payment
open_payment = record (pending_row 40 2 1 555 124000 1000) { checkout = some (8, 9) }

abbrev paying_db : Db
paying_db = record draft_db { payments = open_payment ∷ [] }

paying_db-OnePage : OnePage paying_db
paying_db-OnePage order_id provider = ground arith
