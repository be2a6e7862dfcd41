-- ===== src/Lib.antt =====
-- A verification library for thread-bites, the threading library of this repository: threads, locks,
-- condition variables, memory, thread-specific data, cancelation and scheduling of x86_64 Linux threads,
-- over raw system calls.
--
-- The program's parts. tb-mutexes.c has the low-level lock tb_futex_*, on which everything else
-- stands: the read-write lock (tb-rwlock.c), the allocator (tb-utils.c), the scheduling of a thread
-- (tb-sched.c) and the condition variable (tb-condvar.c) keep their state behind one. The descriptors of
-- threads (tb-threads.c) stand behind a mutex of the library, in linked lists (tb-utils.c).
-- Thread-specific data (tb-tls.c), cancelation (tb-cancel.c) and tbthread_once (tb-threads.c) use
-- compare-and-swap alone.
--
-- Files and code:
--   Prelude, Prelude/*   Boolean tests, lists over native numbers, the number of threads below a
--                        bound that are somewhere (`tally`), results, machine words.
--   Kernel, Kernel/*     what the library relies on of futex(2), as a record of operations with
--                        laws; `sleepers` is one that has them, used in the runs of the tests.
--   Futex, Futex/*       tb-mutexes.c, lines 83-106. `step` is one shared access of a thread, and
--                        `run` interleaves any number of threads by a schedule. Between the
--                        compare-and-swap and the system call other threads may do anything.
--   RwLock, RwLock/*     tb-rwlock.c. What stands between tb_futex_lock and tb_futex_unlock of the
--                        lock's own futex is one step; entering FUTEX_WAIT and returning from it, woken
--                        or interrupted, are steps.
--   Malloc, Malloc/*     tb-utils.c, lines 216-326: the allocator, one step for each call, since
--                        each holds `memory_lock`. The chunks are the list from `head`, each with
--                        its address, and all arithmetic wraps at 2^64. brk(2) is a parameter.
--   Realloc, Realloc/*   tb-utils.c, lines 328-376, with the bytes of memory as a function.
--   Tls, Tls/*           tb-tls.c. Each function is one step; Tls.Race has tbthread_key_create by
--                        its shared accesses.
--   Sched, Sched/*       tb-sched.c and the SCHED_INFO macros of tb-private.h. The lists of a
--                        thread are lists, sched_setscheduler(2) and the success of malloc are
--                        parameters, and the `sched_info` of the mutexes is a function that stays
--                        as it is while the operations run.
--   Mutex, Mutex/*       tb-mutexes.c, lines 108-455, over a store of mutexes and of threads by their
--                        addresses: the protocols in Mutex, the types in Mutex.Types, what the two
--                        together promise in Mutex.Promise. A call is one step, which returns, goes
--                        to sleep until the futex changes and is then made again, or faults.
--   Inherit, Inherit/*   tb-mutexes.c, lines 226-275: the functions of the priority-inherit protocol, a
--                        shared access at a time, by any number of threads; the internal futex runs
--                        by the steps of Futex. What the calls of tb-sched.c do there is in Sched.
--   Boost, Boost/*       the same functions together with tb-sched.c: each thread's scheduling changes
--                        where the section of Inherit calls it.
--   Monitor, Monitor/*   tb-condvar.c together with tb-mutexes.c: consumers and producers over one
--                        condition variable and its mutex, whose calls are those of Mutex. They are
--                        the use that the functions are made for, and no code of the repository.
--   Random, Sleep        tb-utils.c, lines 162-172 and 185-189; nanosleep(2) is the list of its answers.
--   Cancel, Cancel/*     tb-cancel.c: the bits of a thread's `cancel_status` and its signals, by any
--                        number of callers and a shared access at a time, and its cleanup handlers;
--                        Cancel.Old has the old values that the setters give.
--   LinkedList, ...      tb-utils.c, lines 378-473: the nodes of doubly-linked lists on a store. A walk
--                        has a number of rounds. LinkedList.Protect is about the calls of tb-sched.c.
--   Once, Once/*         tb-threads.c, lines 419-473: tbthread_once, a shared access at a time, with
--                        cancelation.
--   Condvar, Condvar/*   tb-condvar.c. What stands between tb_futex_lock and tb_futex_unlock of the
--                        variable's own futex is one step; the waits are as in RwLock.
--   Descriptors, ...     tb-threads.c, lines 45-417: the descriptors of threads and their two lists, held
--                        as lists of addresses; create, detach, join and exit. Descriptors.Actions runs
--                        any number of threads, an action at a time; Descriptors.Nodes is about
--                        the nodes of the two lists.
--   Start, Start/*       tb-threads.c, lines 94-115 and 292-327: tbthread_create and the new thread's
--                        start_thread, a shared access at a time, with the kernel's stores to `tid`.
--   Print, Print/*       tb-utils.c, lines 29-149: numbers as text, and the formats of tbprint as a
--                        machine that takes one character at a time.
--   Strerror, ...        tb-utils.c, lines 478-611: the messages of error numbers.
--
-- Bounds. Threads are fewer than 2^31, as the count that FUTEX_WAKE gets is an int; runs of the
-- read-write lock for liveness have fewer than 2^32 events, and those of a condition variable fewer
-- than 2^31, so that a futex counter does not come round to an old value between a read and the wait
-- and an int holds the sequence number of broadcasts. malloc's theorems take requests of up to 2^61
-- bytes, below the bit MEMCHUNK_USED; calloc and realloc count in an int, so theirs stop at 2^31.
-- Loops are recursion on the list or on the rounds left, and none runs out: the loops of the locks
-- are schedules, for which the liveness theorems say which steps end them.
--
-- The walks of a list are on rounds, and their theorems ask for more rounds than nodes. A wait of
-- tbthread_join or tbthread_create is over the list of the ends of its waits, and blocks where that
-- runs out.
--
-- Not modelled: the stack that a thread exits from, tbthread_finit and the signal action; the system
-- call wrappers and the assembly; the example programs. A wild pointer given to free or realloc is not
-- followed. Memory is sequentially consistent, as on x86_64 with the locked compare-and-swap.
pub mod Prelude
pub mod Kernel
pub mod Futex
pub mod RwLock
pub mod Malloc
pub mod Realloc
pub mod Tls
pub mod Sched
pub mod Mutex
pub mod Cancel
pub mod Print
pub mod LinkedList
pub mod Once
pub mod Condvar
pub mod Descriptors
pub mod Strerror
pub mod Inherit
pub mod Monitor
pub mod Random
pub mod Sleep
pub mod Boost
pub mod Start
