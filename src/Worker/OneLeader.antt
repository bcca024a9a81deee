-- ===== src/Worker/OneLeader.antt =====
-- No two instances lead on leases that still run.
use wedding_saas.Worker.Lease.{
  stop-Agrees, later-Agrees, tick-Agrees, acquired-free, Cluster, Agrees,
}
use wedding_saas.Worker.Leader.{stop, lost, answered, Reply, tick}
use wedding_saas.Base.{
  [], ◌∷◌, All, List, ◌≢◌, ◌+◌, arith, inr, inl, Option-cases, refl, ==_refl, ◌<◌, none, ◌≡◌, ◌≤◌,
  ℕ, true, false,
}
use wedding_saas.Worker.StringKey.{StringKey}

module _ (redis : StringKey ℕ) (ttl_ms : ℕ) where
  pub data ElectionEvent : Type 0 where
    ticks stops : Reply redis ttl_ms → ℕ → ElectionEvent

  unfoldable pub happen : ElectionEvent → ℕ → Cluster redis ttl_ms → Cluster redis ttl_ms
  happen (ticks reply id) now e = (tick redis ttl_ms reply id now e).0
  happen (stops reply id) now e = stop redis ttl_ms reply id now e

  -- Events, each with how long after the one before it happens.
  unfoldable pub after_all :
      List (ElectionEvent × ℕ) → ℕ → Cluster redis ttl_ms → Cluster redis ttl_ms
  after_all [] now e = e
  after_all (p ∷ events) now e = after_all events (now + p.1) (happen p.0 (now + p.1) e)

  unfoldable pub end_of : List (ElectionEvent × ℕ) → ℕ → ℕ
  end_of [] now = now
  end_of (p ∷ events) now = end_of events (now + p.1)

  -- Whether a stop hears from Redis, or does not reach it.
  abbrev pub IsHeard : ElectionEvent × ℕ → Type 0
  IsHeard (ticks reply id, wait) = Unit
  IsHeard (stops reply id, wait) = reply ≢ lost

  happen-Agrees :
      (event : ElectionEvent) (wait now : ℕ) (e : Cluster redis ttl_ms)
      → IsHeard (event, wait)
      → Agrees redis ttl_ms now e
      → Agrees redis ttl_ms (now + wait) (happen event (now + wait) e)
  unfolding happen
  happen-Agrees (ticks reply id) wait now e heard was =
      tick-Agrees redis ttl_ms reply id (now + wait) e
        (later-Agrees redis ttl_ms now (now + wait) e (omega arith) was)
  happen-Agrees (stops reply id) wait now e heard was =
      stop-Agrees redis ttl_ms reply id (now + wait) e heard
        (later-Agrees redis ttl_ms now (now + wait) e (omega arith) was)

  after_all-Agrees :
      (events : List (ElectionEvent × ℕ)) (now : ℕ) (e : Cluster redis ttl_ms)
      → All IsHeard events
      → Agrees redis ttl_ms now e
      → Agrees redis ttl_ms (end_of events now) (after_all events now e)
  unfolding after_all end_of
  after_all-Agrees [] now e heard was = was
  after_all-Agrees (p ∷ events) now e (heard, rest) was =
      after_all-Agrees events (now + p.1) (happen p.0 (now + p.1) e) rest
        (happen-Agrees p.0 p.1 now e heard was)

  -- Before any instance ticks.
  abbrev pub idle : redis.S → Cluster redis ttl_ms
  idle s = record { lease = s; leading = λ id. false; lease_end = λ id. 0 }

  idle-Agrees : (s : redis.S) (now : ℕ) → redis.get now s ≡ none → Agrees redis ttl_ms now (idle s)
  idle-Agrees s now free = record {
    held = λ id later le lead within. cc;
    running = λ id later le reading. let k = redis.get-later now later s free le in cc;
  }

  -- From a key that nobody holds, through any ticks and stops of any instances, with answers of
  -- Redis that come, are lost or fail: two instances that lead while their leases run are one. A
  -- stop whose answer is lost is left out.
  pub one_leader :
      (s : redis.S) (now : ℕ) (events : List (ElectionEvent × ℕ))
      → redis.get now s ≡ none
      → All IsHeard events
      → (a b later : ℕ) → end_of events now ≤ later
      → (after_all events now (idle s)).leading a ≡ true
      → later < (after_all events now (idle s)).lease_end a
      → (after_all events now (idle s)).leading b ≡ true
      → later < (after_all events now (idle s)).lease_end b
      → a ≡ b
  one_leader s now events free heard a b later le leads_a runs_a leads_b runs_b =
      let e = after_all events now (idle s) in
      let agrees = after_all-Agrees events now (idle s) heard (idle-Agrees s now free) in
      let reads_a = agrees.held a later le leads_a runs_a in
      let reads_b = agrees.held b later le leads_b runs_b in ground arith

  -- As long as no stop lost its answer, and once every lease has run out, the next instance
  -- whose tick is answered leads, whatever ticks the others made or lost before.
  pub takes_over :
      (s : redis.S) (now : ℕ) (events : List (ElectionEvent × ℕ)) (id later : ℕ)
      → redis.get now s ≡ none
      → All IsHeard events
      → end_of events now ≤ later
      → ((other : ℕ) → (after_all events now (idle s)).lease_end other ≤ later)
      → let (e, calls) = tick redis ttl_ms answered id later (after_all events now (idle s)) in
        (e.leading id ≡ true) × (e.lease_end id ≡ later + ttl_ms)
  unfolding tick
  takes_over s now events id later free heard le over =
      let e = after_all events now (idle s) in
      let agrees = after_all-Agrees events now (idle s) heard (idle-Agrees s now free) in
      elim (Option-cases (redis.get later e.lease)) [
        | inl open_ ↦
            rw (acquired-free redis ttl_ms id later e.lease open_) (rw (==_refl id) (refl, refl))
        | inr (holder, held) ↦
            let k = agrees.running holder later le held in absurd (omega (arith, k, over holder))
      ]
