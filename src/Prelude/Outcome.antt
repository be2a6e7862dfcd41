-- ===== src/Prelude/Outcome.antt =====
-- What the library's functions return: 0, or a negated error number of asm-generic/errno.h.
pub data Errno : Type 0 where
  eperm eagain enomem ebusy einval edeadlk esrch : Errno

pub data Outcome : Type 0 where
  ok : Outcome
  err : Errno → Outcome
