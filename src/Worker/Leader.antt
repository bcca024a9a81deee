-- ===== src/Worker/Leader.antt =====
-- backend/worker/src/leader-election.ts: the scripts on the key of the lease, and the instances that
use wedding_saas.Base.{[], ◌∷◌, ◌+◌, some, none, if◌then◌else◌, List, Bool, ℕ, true, false, ◌==◌}
use wedding_saas.Worker.StringKey.{StringKey}

-- tick and stop. Times are milliseconds.

module _ (redis : StringKey ℕ) (ttl_ms : ℕ) where
  -- The script of `acquireOrRenew`.
  unfoldable pub acquire_or_renew : ℕ → ℕ → redis.S → Bool × redis.S
  acquire_or_renew id now s = elim (redis.get now s) [
    | none ↦ (true, redis.set id ttl_ms now s)
    | some current ↦ if current == id then (true, redis.expire ttl_ms now s) else (false, s)
  ]

  -- The script of `release`.
  unfoldable pub release_lease : ℕ → ℕ → redis.S → redis.S
  release_lease id now s = elim (redis.get now s) [
    | none ↦ s
    | some current ↦ if current == id then redis.del now s else s
  ]

  -- The key, which instances have `leading` set, and when the last lease that each was granted
  -- ends, which no instance stores.
  pub record Election : Type 0 where
    pub lease : redis.S
    pub leading : ℕ → Bool
    pub lease_end : ℕ → ℕ

  pub data Callback : Type 0 where
    on_gain on_lose : Callback

  -- Redis answers, runs the script but its answer is lost, or is not reached: the last two throw.
  pub data Reply : Type 0 where
    answered lost unreached : Reply

  abbrev pub put {ℓ} : {A : Type ℓ} → ℕ → A → (ℕ → A) → ℕ → A
  put id a f other = if other == id then a else f other

  abbrev pub grant_to : ℕ → ℕ → Bool → (ℕ → ℕ) → ℕ → ℕ
  grant_to id now granted lease_end = if granted then put id (now + ttl_ms) lease_end else lease_end

  -- `leading` before and after
  abbrev pub callbacks : Bool → Bool → List Callback
  callbacks false true = on_gain ∷ []
  callbacks true false = on_lose ∷ []
  callbacks _ _ = []

  -- `tick`
  unfoldable pub tick : Reply → ℕ → ℕ → Election → Election × List Callback
  tick answered id now e =
      let (acquired, lease) = acquire_or_renew id now e.lease in
      (
        record {
          lease = lease;
          leading = put id acquired e.leading;
          lease_end = grant_to id now acquired e.lease_end;
        },
        callbacks (e.leading id) acquired,
      )
  tick lost id now e =
      let (acquired, lease) = acquire_or_renew id now e.lease in
      (
        record {
          lease = lease;
          leading = put id false e.leading;
          lease_end = grant_to id now acquired e.lease_end;
        },
        callbacks (e.leading id) false,
      )
  tick unreached id now e =
      (record e { leading = put id false e.leading }, callbacks (e.leading id) false)

  -- `stop`; when Redis is not reached the call throws and nothing changes, and when its answer is
  -- lost only the key does.
  unfoldable pub stop : Reply → ℕ → ℕ → Election → Election
  stop answered id now e =
      if e.leading id
      then record e { lease = release_lease id now e.lease; leading = put id false e.leading }
      else e
  stop lost id now e = if e.leading id then record e { lease = release_lease id now e.lease } else e
  stop unreached id now e = e
