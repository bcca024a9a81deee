-- ===== src/Worker/Lease.antt =====
-- What each tick and each stop keeps: who leads on a running lease holds the key.
use wedding_saas.Worker.Leader.{
  stop, unreached, lost, answered, Reply, tick, release_lease, grant_to, put, acquire_or_renew,
  Election,
}
use wedding_saas.Base.{
  ltb→lt, sym, lt→ltb, ◌≢◌, ◌+◌, ltb, ap, ◌∙◌, if◌then◌else◌, arith, Bool-cases, inr, inl,
  Option-cases, refl, ==_refl, ◌<◌, some, none, ◌≡◌, ◌≤◌, Bool, ℕ, true, false, ◌==◌,
}
use wedding_saas.Worker.StringKey.{StringKey}

module _ (redis : StringKey ℕ) (ttl_ms : ℕ) where
  abbrev pub Cluster : Type 0
  Cluster = Election redis ttl_ms

  -- From a time on: an instance that leads on a running lease holds the key, and whoever holds the
  -- key has a running lease.
  pub record Agrees (now : ℕ) (e : Cluster) : Type 0 where
    pub held :
        (id later : ℕ)
        → now ≤ later
        → e.leading id ≡ true
        → later < e.lease_end id
        → redis.get later e.lease ≡ some id
    pub running :
        (id later : ℕ) → now ≤ later → redis.get later e.lease ≡ some id → later < e.lease_end id

  pub acquired-free :
      (id now : ℕ) (s : redis.S)
      → redis.get now s ≡ none
      → acquire_or_renew redis ttl_ms id now s ≡ (true, redis.set id ttl_ms now s)
  unfolding acquire_or_renew
  acquired-free id now s free = rw (free, acquire_or_renew) refl

  acquired-own :
      (id now : ℕ) (s : redis.S)
      → redis.get now s ≡ some id
      → acquire_or_renew redis ttl_ms id now s ≡ (true, redis.expire ttl_ms now s)
  unfolding acquire_or_renew
  acquired-own id now s own = rw (own, acquire_or_renew) (rw (==_refl id) refl)

  acquired-other :
      (id other now : ℕ) (s : redis.S)
      → redis.get now s ≡ some other
      → (other == id) ≡ false
      → acquire_or_renew redis ttl_ms id now s ≡ (false, s)
  unfolding acquire_or_renew
  acquired-other id other now s held differs = rw (held, acquire_or_renew) (rw differs refl)

  -- A key set to an instance until the end of its lease, where no other held it.
  granted-Agrees :
      (id now : ℕ) (flag : Bool) (e : Cluster) (s : redis.S)
      → Agrees now e
      → ((later : ℕ)
          → now ≤ later
          → redis.get later s ≡ (if ltb later (now + ttl_ms) then some id else none))
      → ((other later : ℕ)
          → (other == id) ≡ false
          → now ≤ later
          → redis.get later e.lease ≢ some other)
      → Agrees now (record {
        lease = s;
        leading = put redis ttl_ms id flag e.leading;
        lease_end = put redis ttl_ms id (now + ttl_ms) e.lease_end;
      })
  granted-Agrees id now flag e s was reads alone = record {
    held = λ who later le lead within. elim (Bool-cases (who == id)) [
      | inl own ↦
          let until : later < now + ttl_ms = rw own at within in
          let same : who ≡ id = ground (arith, own) in
          rw same (reads later le ∙ rw (lt→ltb later (now + ttl_ms) until) refl)
      | inr other ↦
          let leads : e.leading who ≡ true = rw other at lead in
          let until : later < e.lease_end who = rw other at within in
          absurd (alone who later other le (was.held who later le leads until))
    ];
    running = λ who later le reading. elim (Bool-cases (ltb later (now + ttl_ms))) [
      | inl within ↦
          let k : some id ≡ some who = sym (rw within at (reads later le)) ∙ reading in
          let same : (who == id) ≡ true = ground arith in
          rw same (ltb→lt later (now + ttl_ms) within)
      | inr over ↦ let k : none ≡ some who = sym (rw over at (reads later le)) ∙ reading in cc
    ];
  }

  -- An instance that the script refuses, and others as they were.
  refused-Agrees :
      (id now : ℕ) (e : Cluster)
      → Agrees now e
      → Agrees now (record e { leading = put redis ttl_ms id false e.leading })
  refused-Agrees id now e was = record {
    held = λ who later le lead within. elim (Bool-cases (who == id)) [
      | inl own ↦ let k : false ≡ true = rw own at lead in cc
      | inr other ↦ was.held who later le (rw other at lead) within
    ];
    running = was.running;
  }

  pub later-Agrees : (now later : ℕ) (e : Cluster) → now ≤ later → Agrees now e → Agrees later e
  later-Agrees now later e le was = record {
    held = λ id t h lead within. was.held id t (omega (arith, le, h)) lead within;
    running = λ id t h reading. was.running id t (omega (arith, le, h)) reading;
  }

  -- The three answers of the script, with a flag that the script granted.
  script-Agrees :
      (id now : ℕ) (flag : Bool) (e : Cluster)
      → Agrees now e
      → ((acquire_or_renew redis ttl_ms id now e.lease).0 ≡ false → flag ≡ false)
      → let (acquired, lease) = acquire_or_renew redis ttl_ms id now e.lease in
        Agrees now (record {
          lease = lease;
          leading = put redis ttl_ms id flag e.leading;
          lease_end = grant_to redis ttl_ms id now acquired e.lease_end;
        })
  script-Agrees id now flag e was can = elim (Option-cases (redis.get now e.lease)) [
    | inl free ↦ rw (acquired-free id now e.lease free) (
        granted-Agrees id now flag e (redis.set id ttl_ms now e.lease) was
          (λ later le. redis.get-set id ttl_ms now later e.lease le)
          (λ other later differs le reading.
            let k = redis.get-later now later e.lease free le in cc))
    | inr (holder, held) ↦ elim (Bool-cases (holder == id)) [
      | inl own ↦
          let mine : redis.get now e.lease ≡ some id = held ∙ ap some (ground (arith, own)) in
          rw (acquired-own id now e.lease mine) (
            granted-Agrees id now flag e (redis.expire ttl_ms now e.lease) was
              (λ later le. redis.get-expire id ttl_ms now later e.lease mine le)
              (λ other later differs le reading.
                let k = redis.get-kept id other now later e.lease mine le reading in ground arith))
      | inr other ↦
          let answer = acquired-other id holder now e.lease held other in
          let down : flag ≡ false = can (ap (λ p. p.0) answer) in
          rw (answer, down) (refused-Agrees id now e was)
    ]
  ]

  pub tick-Agrees :
      (reply : Reply redis ttl_ms) (id now : ℕ) (e : Cluster)
      → Agrees now e
      → Agrees now (tick redis ttl_ms reply id now e).0
  unfolding tick
  tick-Agrees answered id now e was =
      script-Agrees id now (acquire_or_renew redis ttl_ms id now e.lease).0 e was (λ h. h)
  tick-Agrees lost id now e was = script-Agrees id now false e was (λ h. refl)
  tick-Agrees unreached id now e was = refused-Agrees id now e was

  abbrev Released : ℕ → ℕ → redis.S → redis.S → Type 0
  Released id now before after =
      ((other later : ℕ)
        → now ≤ later
        → redis.get later after ≡ some other
        → redis.get later before ≡ some other)
      × ((other later : ℕ)
          → now ≤ later
          → (other == id) ≡ false
          → redis.get later before ≡ some other
          → redis.get later after ≡ some other)

  release_lease-Released :
      (id now : ℕ) (s : redis.S) → Released id now s (release_lease redis ttl_ms id now s)
  unfolding release_lease
  release_lease-Released id now s = elim (Option-cases (redis.get now s)) [
    | inl free ↦ rw (free, release_lease) (λ other later le h. h, λ other later le differs h. h)
    | inr (holder, held) ↦ elim (Bool-cases (holder == id)) [
      | inr another ↦
          rw (held, release_lease)
            (rw another (λ other later le h. h, λ other later le differs h. h))
      | inl own ↦
          rw (held, release_lease)
            (rw own (
              λ other later le h. let k = redis.get-del now later s le in cc,
              λ other later le differs h.
                  let k = redis.get-kept holder other now later s held le h in
                  absurd (ground arith),
            ))
    ]
  ]

  -- A lease that its holder gives up, with the flag cleared or not.
  pub stop-Agrees :
      (reply : Reply redis ttl_ms) (id now : ℕ) (e : Cluster)
      → reply ≢ lost
      → Agrees now e
      → Agrees now (stop redis ttl_ms reply id now e)
  unfolding stop
  stop-Agrees unreached id now e sure was = was
  stop-Agrees lost id now e sure was = absurd (sure refl)
  stop-Agrees answered id now e sure was = elim (Bool-cases (e.leading id)) [
    | inr follows ↦ rw (follows, stop) was
    | inl leads ↦
        let (before, after) = release_lease-Released id now e.lease in
        rw (leads, stop)
          (record {
            held = λ who later le lead within. elim (Bool-cases (who == id)) [
              | inl own ↦ let k : false ≡ true = rw own at lead in cc
              | inr other ↦
                  after who later le other (was.held who later le (rw other at lead) within)
            ];
            running =
                λ who later le reading. was.running who later le (before who later le reading);
          })
  ]
