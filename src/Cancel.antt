-- ===== src/Cancel.antt =====
-- tb-cancel.c: cancelation of one thread, a shared access at a time, and its cleanup handlers. The
-- signal handler runs on top of what its thread does, so it counts as a thread of its own here.
pub mod Threads
mod Safety
mod Heard
mod Cleanup
mod Old
mod Tests
use threading_from_scratch.Prelude.{
  ℕ, suc, ◌+◌, ◌-◌, Bool, true, false, not, ◌&&◌, ◌||◌, ◌==◌, if◌then◌else◌,
}

-- The bits of `cancel_status`: TB_CANCEL_ENABLED, TB_CANCEL_DEFERRED, TB_CANCELING and TB_CANCELED.
pub record Status : Type 0 where
  pub enabled : Bool
  pub deferred : Bool
  pub canceling : Bool
  pub canceled : Bool

-- The thread that is canceled: its status, how often it has been sent SIGCANCEL, how many of these its
-- handler has not yet been called for, and how often it has gone to tbthread_exit by
-- tbthread_testcancel.
pub record Target : Type 0 where
  pub status : Status
  pub signals : ℕ
  pub pending : ℕ
  pub exits : ℕ

-- The bit that set_cancelation_bit sets.
pub data Bit : Type 0 where
  enabled_bit deferred_bit : Bit

-- Where a caller stands.
pub data Pc : Type 0 where
  idle : Pc  -- outside
  canceling_read : Pc  -- in tbthread_cancel, before the read
  canceling_swap : (val : Status) → Pc  -- before the compare-and-swap
  killing : Pc  -- before tgkill
  setting_read : Bit → (value : ℕ) → Pc  -- in set_cancelation_bit, before the read
  setting_swap : Bit → (value : ℕ) → (val : Status) → Pc  -- before the compare-and-swap
  testing_read : Pc  -- in tbthread_testcancel, before the read
  testing_swap : (val : Status) → Pc  -- before the compare-and-swap
  exiting : Pc  -- in tbthread_exit

-- What a caller may do next: a call, of which tbthread_cancel finds the thread in used_desc or not; the
-- signal handler, for a signal of this process's tgkill or another one; or the next shared access.
pub data Event : Type 0 where
  testcancel go : Event
  cancel : (found : Bool) → Event
  handler : (genuine : Bool) → Event
  setcancelstate setcanceltype : ℕ → Event

abbrev pub same_bit : Bool → Bool → Bool
same_bit true b = b
same_bit false b = not b

-- The comparison of the compare-and-swap.
abbrev pub same : Status → Status → Bool
same s t =
    same_bit s.enabled t.enabled
    && same_bit s.deferred t.deferred
    && same_bit s.canceling t.canceling
    && same_bit s.canceled t.canceled

-- Lines 53-57.
pub cancel_read : Target → Target × Pc
cancel_read m = if m.status.canceling then (m, idle) else (m, canceling_swap m.status)

-- Lines 58-62, to the decision on the signal.
pub cancel_swap : Status → Target → Target × Pc
cancel_swap val m =
    if same m.status val
    then (
      record m { status = record val { canceling = true } },
      if val.enabled && not val.deferred then killing else idle,
    )
    else (m, canceling_read)

-- Lines 155-156; a bit is set by any value but 0.
abbrev pub with_bit : Bit → ℕ → Status → Status
with_bit enabled_bit value s = record s { enabled = not (value == 0) }
with_bit deferred_bit value s = record s { deferred = not (value == 0) }

-- Lines 176-177 and 194: setcancelstate tests if it enables, setcanceltype always.
abbrev pub after_set : Bit → ℕ → Pc
after_set enabled_bit value = if value == 1 then testing_read else idle
after_set deferred_bit value = testing_read

pub set_swap : Bit → ℕ → Status → Target → Target × Pc
set_swap bit value val m =
    if same m.status val
    then (record m { status = with_bit bit value val }, after_set bit value)
    else (m, setting_read bit value)

-- Lines 208-211.
pub test_read : Target → Target × Pc
test_read m =
    if not m.status.enabled || not m.status.canceling || m.status.canceled
    then (m, idle)
    else (m, testing_swap m.status)

-- Lines 212-216.
pub test_swap : Status → Target → Target × Pc
test_swap val m =
    if same m.status val
    then (record m { status = record val { canceled = true }; exits = m.exits + 1 }, exiting)
    else (m, testing_read)

-- A state or type other than 0 and 1 is refused with -EINVAL.
abbrev pub set_call : Bit → ℕ → Pc
set_call bit value = if not (value == 1) && not (value == 0) then idle else setting_read bit value

-- Lines 28-35.
pub handle : Bool → Target → Target × Pc
handle genuine m =
    if not genuine || m.pending == 0
    then (m, idle)
    else (record m { pending = m.pending - 1 }, if m.status.deferred then idle else testing_read)

-- One event of one caller; one that does not fit its place changes nothing. A tbthread_cancel that does
-- not find the thread returns -ESRCH.
unfoldable pub step : Event → Target → Pc → Target × Pc
unfolding handle cancel_read cancel_swap set_swap test_read test_swap
step (cancel found) m idle = (m, if found then canceling_read else idle)
step testcancel m idle = (m, testing_read)
step (handler genuine) m idle = handle genuine m
step (setcancelstate s) m idle = (m, set_call enabled_bit s)
step (setcanceltype t) m idle = (m, set_call deferred_bit t)
step go m canceling_read = cancel_read m
step go m (canceling_swap val) = cancel_swap val m
step go m killing = (record m { signals = m.signals + 1; pending = m.pending + 1 }, idle)
step go m (setting_read bit value) = (m, setting_swap bit value m.status)
step go m (setting_swap bit value val) = set_swap bit value val m
step go m testing_read = test_read m
step go m (testing_swap val) = test_swap val m
step _ m p = (m, p)
