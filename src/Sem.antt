-- ===== src/Sem.antt =====
-- The System V semaphores of src/sysvsem.c, kept in shared memory.
pub mod Sets
pub mod Table
pub mod TableLaws
pub mod Get
pub mod Op
pub mod Futex
pub mod FutexLaws
pub mod FutexProgress
pub mod Wake
pub mod WakeLaws
pub mod WakeProgress
pub mod Cond
pub mod CondLaws
pub mod Atomic
pub mod AtomicLaws
pub mod Semop
pub mod GetLaws
pub mod Rounds
pub mod Laws
