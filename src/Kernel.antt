-- ===== src/Kernel.antt =====
-- The kernel's side of the futex system call, which tb-mutexes.c, tb-rwlock.c and tb-condvar.c make.
-- It is no code of the repository: an interface with the laws that futex(2) documents.
mod Sleepers
pub use Sleepers.{sleepers}
pub mod Defs
pub use Defs.{Kernel, wake_one, wake_every, max_threads}
