-- ===== src/Sem/FutexLaws.antt =====
-- Mutual exclusion of the mutex of src/sysvsem.c.
use hxroot.Sem.Futex.{
  locked, holding, Reach, start, here, next, idle, advance, System, step, unlocked, contended,
  crashed,
}
use hxroot.Base.{ℕ, ◌≡◌, ◌≢◌, arith}

record Inv (s : System) : Type 0 where
  never_locked : s.word ≢ locked
  held : (i : ℕ) → s.pc i ≡ holding → s.word ≡ contended
  unique : (i j : ℕ) → s.pc i ≡ holding → s.pc j ≡ holding → i ≡ j
  alive : (i : ℕ) → s.pc i ≢ crashed

start-Inv : Inv start
start-Inv = record {
  never_locked = λ e. cc;
  held = λ i e. cc;
  unique = λ i j e f. cc;
  alive = λ i e. cc;
}

module _ (s : System) (inv : Inv s) (i : ℕ) where
  step-held : (j : ℕ) → (step s i).pc j ≡ holding → (step s i).word ≡ contended
  unfolding advance
  step-held j h =
      ground (arith, inv.never_locked, inv.held j, inv.held i, inv.unique i j, inv.alive i)

  step_unique : (j k : ℕ) → (step s i).pc j ≡ holding → (step s i).pc k ≡ holding → j ≡ k
  unfolding advance
  step_unique j k h g =
      ground (arith, inv.never_locked, inv.held j, inv.held k, inv.held i, inv.unique j k)

  step-alive : (j : ℕ) → (step s i).pc j ≢ crashed
  unfolding advance
  step-alive j h =
      ground (arith, inv.never_locked, inv.held j, inv.held i, inv.alive j, inv.alive i)

  step-never_locked : (step s i).word ≢ locked
  unfolding advance
  step-never_locked h = ground (arith, inv.never_locked)

  step-Inv : Inv (step s i)
  step-Inv = record {
    never_locked = step-never_locked;
    held = step-held;
    unique = step_unique;
    alive = step-alive;
  }

Reach-Inv : {s : System} → Reach s → Inv s
Reach-Inv here = start-Inv
Reach-Inv (next {s} r i) = step-Inv s (Reach-Inv r) i

-- However the threads interleave, no two hold the mutex at once.
pub mutual_exclusion :
    {s : System} (i j : ℕ) → Reach s → s.pc i ≡ holding → s.pc j ≡ holding → i ≡ j
mutual_exclusion i j r = (Reach-Inv r).unique i j

-- However the threads interleave, the word is never `LOCKED`, the value that the fast path expects;
-- and no thread has found the word `UNLOCKED` when it unlocked, and aborted.
pub no_fast_path : {s : System} (i : ℕ) → Reach s → (s.word ≢ locked) × (s.pc i ≢ crashed)
no_fast_path i r = ((Reach-Inv r).never_locked, (Reach-Inv r).alive i)

-- The exchange of the fast path has its values swapped: on a word that is `LOCKED`, while thread
-- `j` holds the mutex, it lets another thread in beside `j` and leaves the word `UNLOCKED`.
pub lock_fast_swapped :
    (s : System) (i j : ℕ)
    → i ≢ j
    → s.word ≡ locked
    → s.pc i ≡ idle
    → s.pc j ≡ holding
    → ((step s i).pc i ≡ holding) × ((step s i).pc j ≡ holding) × ((step s i).word ≡ unlocked)
unfolding advance
lock_fast_swapped s i j ne e f g = (ground arith, ground arith, ground arith)
