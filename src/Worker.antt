-- ===== src/Worker.antt =====
-- backend/worker/src: the guard that runs a job once, the runner that calls it, and the election of
-- the one instance that runs the scheduled jobs. The guard and the election each work on one key in
-- Redis.
pub mod StringKey
pub mod Idempotency
pub mod Runner
pub mod Attempts
pub mod Leader
pub mod Lease
pub mod OneLeader
