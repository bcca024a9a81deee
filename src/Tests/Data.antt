-- ===== src/Tests/Data.antt =====
-- A catalogue, an invitation and its orders.
use wedding_saas.Status.Rules.{InvitationStatus}
use wedding_saas.Base.{[], ◌∷◌, ◌*◌, none, ◌+◌, true, false, ℕ, Option, List}
use wedding_saas.Db.{
  OrderStatus, Order, Invitation, HistoryRow, Package, OrderType, Db, Addon, new_publish,
}

abbrev pub basic : Package
basic = record {
  id = 3;
  name = "Basic";
  price = 99000;
  duration_months = 6;
  max_photos = 20;
  has_watermark = false;
  is_active = true;
}

abbrev pub music : Addon
music = record { id = 5; name = "Music"; price = 25000; is_active = true }

abbrev pub invitation_in : InvitationStatus → Invitation
invitation_in status = record {
  id = 1;
  owner_id = 7;
  status = status;
  slug = none;
  published_at = none;
  expiry_date = none;
  deleted_at = none;
}

abbrev pub order_of : OrderType → OrderStatus → Order
order_of type status = record {
  id = 2;
  invitation_id = 1;
  user_id = 7;
  package_id = 3;
  addon_ids = 5 ∷ [];
  amount_total = 124000;
  status = status;
  order_type = type;
  expired_at = 86400;
  created_at = 0;
}

abbrev pub row_to : Option InvitationStatus → InvitationStatus → HistoryRow
row_to from to = record {
  invitation_id = 1;
  from_status = from;
  to_status = to;
  changed_by = none;
  reason = "test";
}

-- One invitation that is still a draft, and one order for it.
abbrev pub db_with : InvitationStatus → Order → List HistoryRow → Db
db_with status order history = record {
  invitations = invitation_in status ∷ [];
  history = history;
  orders = order ∷ [];
  packages = basic ∷ [];
  addons = music ∷ [];
  payments = [];
  notifications = [];
}

abbrev pub created_only : List HistoryRow
created_only = row_to none InvitationStatus.draft ∷ []

abbrev pub draft_db : Db
draft_db = db_with InvitationStatus.draft (order_of new_publish OrderStatus.pending) created_only

-- The months of a model calendar in which each month has thirty days.
abbrev pub add_months : ℕ → ℕ → ℕ
add_months day months = day + 30 * months
