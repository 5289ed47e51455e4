-- ===== src/Sem/Wake.antt =====
-- The mutex of src/sysvsem.c with the sleepers of its futex: what `futex_wait` and `futex_wake` of the
-- kernel do is written out, as futex(2) says. The accesses of the word are those of `Futex`.
use hxroot.Sem.Futex.{System, step, start, contended, asleep, waking, holding}
use hxroot.Base.{ℕ, ◌≡◌, ◌≢◌, Bool, true, false, List, [], ◌∷◌, ◌==◌, if◌then◌else◌, suc}

pub record Machine : Type 0 where
  pub sys : System
  pub parked : List ℕ  -- the threads that sleep in the kernel

unfoldable pub is_parked : ℕ → List ℕ → Bool
is_parked i [] = false
is_parked i (j ∷ js) = if i == j then true else is_parked i js

unfoldable pub without : ℕ → List ℕ → List ℕ
without i [] = []
without i (j ∷ js) = let rest = without i js in if i == j then rest else j ∷ rest

-- A thread takes its next access.
abbrev pub stepped : Machine → ℕ → Machine
stepped m i = record m { sys = step m.sys i }

abbrev pub fell_asleep : Machine → ℕ → Machine
fell_asleep m i = record m { parked = i ∷ m.parked }

-- A sleeper leaves the kernel and goes back to the loop of `FutexLockCore`.
abbrev pub left : Machine → ℕ → Machine
left m j = record { sys = step m.sys j; parked = without j m.parked }

-- What can happen without a signal: an access outside the kernel; `futex_wait`, which sleeps if the
-- word is still the expected one and comes back with `EAGAIN` if not; and `futex_wake` of one thread,
-- which wakes a sleeper, any one, if there is one.
pub data Go (m : Machine) : Machine → Type 0 where
  accesses :
      (i : ℕ)
      → is_parked i m.parked ≡ false
      → m.sys.pc i ≢ asleep
      → m.sys.pc i ≢ waking
      → Go m (stepped m i)
  sleeps :
      (i : ℕ)
      → is_parked i m.parked ≡ false
      → m.sys.pc i ≡ asleep
      → m.sys.word ≡ contended
      → Go m (fell_asleep m i)
  retries :
      (i : ℕ)
      → is_parked i m.parked ≡ false
      → m.sys.pc i ≡ asleep
      → m.sys.word ≢ contended
      → Go m (stepped m i)
  wakes :
      (i j : ℕ) → m.sys.pc i ≡ waking → is_parked j m.parked ≡ true → Go m (left (stepped m i) j)
  wakes_none : (i : ℕ) → m.sys.pc i ≡ waking → m.parked ≡ [] → Go m (stepped m i)

-- A signal may end a sleep as well.
pub data Runs : Machine → Type 0 where
  begins : Runs (record { sys = start; parked = [] })
  goes : {m m' : Machine} → Runs m → Go m m' → Runs m'
  interrupted : {m : Machine} → Runs m → (i : ℕ) → is_parked i m.parked ≡ true → Runs (left m i)

-- From `m` on, at most `n` of these, and no signal, bring thread `i` to where it holds the mutex.
pub data Holds (i : ℕ) : ℕ → Machine → Type 0 where
  now : {n : ℕ} {m : Machine} → m.sys.pc i ≡ holding → Holds i n m
  later : {n : ℕ} {m m' : Machine} → Go m m' → Holds i n m' → Holds i (suc n) m
