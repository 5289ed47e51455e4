-- ===== src/Sem/Futex.antt =====
-- The mutex of src/sysvsem.c over one futex word, and any number of threads that lock and unlock
-- it, interleaved at each access of the word. A wait in the kernel may end at any time: it is woken,
-- interrupted, or finds the word changed.
use hxroot.Base.{ℕ, ◌==◌, if◌then◌else◌}

-- `enum HxFutexState`
pub data FutexState : Type 0 where
  unlocked locked contended : FutexState

-- Where a thread stands.
pub data Pc : Type 0 where
  idle : Pc  -- before `FutexLockCore`
  slow : Pc  -- at the head of its loop
  asleep : Pc  -- in `futex_wait`
  holding : Pc  -- between `FutexLockCore` and `FutexUnlockCore`
  waking : Pc  -- before the `futex_wake` of `FutexUnlockCore`
  crashed : Pc  -- after its `abort`

-- The compare-and-exchange of the fast path: `LOCKED` is expected, and `UNLOCKED` written.
unfoldable pub lock_fast : FutexState → FutexState × Pc
lock_fast locked = (unlocked, holding)
lock_fast unlocked = (unlocked, slow)
lock_fast contended = (contended, slow)

-- The exchange in the loop.
unfoldable pub lock_slow : FutexState → FutexState × Pc
lock_slow unlocked = (contended, holding)
lock_slow locked = (contended, asleep)
lock_slow contended = (contended, asleep)

-- The exchange of `FutexUnlockCore`, and its switch.
unfoldable pub unlock : FutexState → FutexState × Pc
unlock unlocked = (unlocked, crashed)
unlock locked = (unlocked, idle)
unlock contended = (unlocked, waking)

-- The next access of a thread.
unfoldable pub advance : FutexState → Pc → FutexState × Pc
unfolding lock_fast lock_slow unlock
advance m idle = lock_fast m
advance m slow = lock_slow m
advance m asleep = (m, slow)
advance m holding = unlock m
advance m waking = (m, idle)
advance m crashed = (m, crashed)

pub record System : Type 0 where
  pub word : FutexState
  pub pc : ℕ → Pc

abbrev pub update : (ℕ → Pc) → ℕ → Pc → ℕ → Pc
update pc i p j = if i == j then p else pc j

abbrev pub step : System → ℕ → System
step s i = record {
  word = (advance s.word (s.pc i)).0;
  pc = update s.pc i (advance s.word (s.pc i)).1;
}

-- `SetMap.lock` and the locks in zeroed mappings start as `UNLOCKED`.
abbrev pub start : System
start = record { word = unlocked; pc = λ _. idle }

pub data Reach : System → Type 0 where
  here : Reach start
  next : {s : System} → Reach s → (i : ℕ) → Reach (step s i)
