-- ===== src/Admin/RefundOnce.antt =====
-- Which orders can be refunded, and what a refund leaves.
use wedding_saas.Status.Rules.{InvitationStatus}
use wedding_saas.Publishing.Publish.{enqueue_invalidation, invalidate_cache, Effect}
use wedding_saas.Base.{none, ◌∷◌, [], Option, some, List, String, ℕ}
use wedding_saas.Db.{Order}

-- The caches of a public page, by its address: one that is empty, or missing, has none.
abbrev pub caches_of : InvitationStatus → Option String → ℕ → List Effect
caches_of InvitationStatus.published none id = []
caches_of InvitationStatus.published (some String.[]) id = []
caches_of InvitationStatus.published (some slug) id =
    invalidate_cache slug id ∷ enqueue_invalidation slug id ∷ []
caches_of _ slug id = []
