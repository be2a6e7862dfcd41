-- ===== src/RwLock/Invariant.antt =====
-- tb-rwlock.c: what the fields of the lock say of the threads, and who sleeps, after any schedule.
mod Fields
mod Futexes
mod Kept
pub use Fields.{is_reading, is_writing, is_queued, Counts, reached-Counts}
pub use Futexes.{is_restless, Restless, Sleep}
pub use Kept.{reached-Sleep}
