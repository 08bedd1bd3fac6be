-- ===== src/Sync.antt =====
-- thread/synch.c: semaphores and locks, as threads that interleave in any order.
-- A thread moves from one acquisition or release of a spinlock to the next; what it does while it
-- holds the spinlock that guards its data is one step. A wait channel (thread/thread.c) is a spinlock
-- and a list of sleeping threads: wchan_sleep puts the caller last and unlocks in one step, as the
-- channel stays locked until the thread is on the list; wchan_wakeone takes the first one off under
-- the same spinlock.
pub mod Threads
pub mod Semaphore
pub mod Lock
