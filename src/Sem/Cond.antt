-- ===== src/Sem/Cond.antt =====
-- The condition variable of src/sysvsem.c, `CondWaitShared` and `CondSignalAllShared`, over the mutex
-- of `Futex`: any number of threads, interleaved at each access of the two words. Both are called with
-- the mutex held.
use hxroot.Sem.Futex.{step, Pc, idle, holding, System, start}
use hxroot.Base.{ℕ, ◌==◌, if◌then◌else◌, ◌≡◌, Bool, true, false}
use hxroot.Sem.Sets.{signal_all}

-- Where a thread stands with the condition variable; with the mutex, that is its `Pc`.
pub data At : Type 0 where
  free : At  -- in neither function
  unlocking : ℕ → At  -- in the `FutexUnlockShared` of `CondWaitShared`, with the value it loaded
  waiting : ℕ → At  -- before its `futex_wait_timed`
  sleeping : ℕ → At  -- asleep in it
  relocking : Bool → At  -- in its `FutexLockShared`; true if it is to return -1
  signalling : At  -- in `CondSignalAllShared`, before its `futex_wake_all`

-- `futex_wait_timed`: the kernel puts the thread to sleep only if the word is the expected one. It
-- is `EAGAIN` otherwise, for which the function returns 0.
unfoldable pub futex_wait_timed : ℕ → ℕ → At
futex_wait_timed cond expected = if cond == expected then sleeping expected else relocking false

-- How a sleep ends: by `EINTR` or `ETIMEDOUT`, which is -1, or by a wake-up.
unfoldable pub wake : Bool → At → At
wake failed (sleeping v) = relocking failed
wake failed free = free
wake failed (unlocking v) = unlocking v
wake failed (waiting v) = waiting v
wake failed (relocking b) = relocking b
wake failed signalling = signalling

-- `futex_wake_all`: `INT_MAX` threads at most, which is all of them.
unfoldable pub futex_wake_all : (ℕ → At) → ℕ → At
unfolding wake
futex_wake_all places j = wake false (places j)

-- Whether the thread's next access is one of a call on the mutex; a call of its own choice if it
-- is in neither function.
unfoldable pub in_mutex : At → Pc → Bool
in_mutex free p = true
in_mutex (unlocking v) idle = false
in_mutex (unlocking v) p = true
in_mutex (relocking b) holding = false
in_mutex (relocking b) p = true
in_mutex (waiting v) p = false
in_mutex (sleeping v) p = false
in_mutex signalling p = false

pub record Shared : Type 0 where
  pub lock : System
  pub cond : ℕ
  pub place : ℕ → At

abbrev pub put : (ℕ → At) → ℕ → At → ℕ → At
put places i a j = if i == j then a else places j

abbrev pub fresh : Shared
fresh = record { lock = start; cond = 0; place = λ _. free }

-- The states that the threads can reach from a set just made, by one access of a thread after another.
pub data Reached : Shared → Type 0 where
  made : Reached fresh
  on_mutex :
      {s : Shared}
      → Reached s
      → (i : ℕ) → in_mutex (s.place i) (s.lock.pc i) ≡ true
      → Reached (record s { lock = step s.lock i })
  -- `CondWaitShared`
  load :
      {s : Shared}
      → Reached s
      → (i : ℕ) → s.place i ≡ free
      → s.lock.pc i ≡ holding
      → Reached (record s { place = put s.place i (unlocking s.cond) })
  unlocked_it :
      {s : Shared} {v : ℕ}
      → Reached s
      → (i : ℕ) → s.place i ≡ unlocking v
      → s.lock.pc i ≡ idle
      → Reached (record s { place = put s.place i (waiting v) })
  wait :
      {s : Shared} {v : ℕ}
      → Reached s
      → (i : ℕ) → s.place i ≡ waiting v
      → Reached (record s { place = put s.place i (futex_wait_timed s.cond v) })
  break_off :
      {s : Shared} {v : ℕ}
      → Reached s
      → (i : ℕ) → s.place i ≡ sleeping v
      → Reached (record s { place = put s.place i (wake true (s.place i)) })
  return_it :
      {s : Shared} {failed : Bool}
      → Reached s
      → (i : ℕ) → s.place i ≡ relocking failed
      → s.lock.pc i ≡ holding
      → Reached (record s { place = put s.place i free })
  -- `CondSignalAllShared`
  add_one :
      {s : Shared}
      → Reached s
      → (i : ℕ) → s.place i ≡ free
      → s.lock.pc i ≡ holding
      → Reached (record s { cond = signal_all s.cond; place = put s.place i signalling })
  wake_them :
      {s : Shared}
      → Reached s
      → (i : ℕ) → s.place i ≡ signalling
      → Reached (record s { place = put (futex_wake_all s.place) i free })
