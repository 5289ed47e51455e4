-- ===== src/Tests/Sems.antt =====
-- Semaphores and the mutex on examples.
use hxroot.Sem.TableLaws.{add_set_full}
use hxroot.Sem.Laws.{fresh_set_unusable}
use hxroot.Sem.Sets.{semctl, fresh_set, setval, refused}
use hxroot.Sem.Op.{semtimedop, gave_up}
use hxroot.Sem.Table.{add_set}
use hxroot.Sys.{Errno}
use hxroot.Sem.Cond.{waiting}
use hxroot.Sem.CondLaws.{no_lost_wakeup}
use hxroot.Sem.Cond.{
  on_mutex, made, unlocked_it, Reached, load, wait, put, Shared, signalling, futex_wait_timed,
  unlocking, in_mutex, add_one, fresh,
}
use hxroot.Sem.GetLaws.{semget-retrieve_set}
use hxroot.Sem.Get.{semget, map_set}
use hxroot.Tests.{giving}
use hxroot.Sem.WakeProgress.{eventually-Holds}
use hxroot.Sem.Wake.{Machine, is_parked, Runs, goes, begins, accesses, sleeps, Holds}
use hxroot.Sem.Table.{retrieve_set, SetMap, first_free, started}
use hxroot.Sem.Op.{SemBuf}
use hxroot.Sem.Sets.{SemSet, Sem, signal_all}
use hxroot.Sem.FutexLaws.{mutual_exclusion}
use hxroot.Sem.Futex.{System, step, Reach, start, next, here, advance, holding}
use hxroot.Base.Int.{ℤ, negsuc, pos}
use hxroot.Sys.{call, ok}
use hxroot.Base.{
  ◌≡◌, refl, Bool, false, none, some, List, [], ◌∷◌, arith, length, ℕ, true, replicate,
}

abbrev sem_of : ℤ → Sem
sem_of v = record { value = v; ncnt = pos 0; zcnt = pos 0; pid = pos 0 }

abbrev set_of : List Sem → SemSet
set_of sems = record { cond = 0; nsems = length sems; sems = sems }

abbrev down : Bool → SemBuf
down nowait = record { sem_num = 0; sem_op = negsuc 0; nowait = nowait }

abbrev up : SemBuf
up = record { sem_num = 1; sem_op = pos 2; nowait = false }

abbrev empty_set : SemSet
empty_set = set_of (sem_of (pos 0) ∷ sem_of (pos 0) ∷ [])

-- Thread 0 tries the fast path and gets the mutex in the loop; thread 1 tries and sleeps.
abbrev busy : System
busy = step (step (step (step start 0) 0) 1) 1

busy-Reach : Reach busy
busy-Reach = next (next (next (next here 0) 0) 1) 1

abbrev holder : ℕ
holder = 0

mutual_exclusion_example : holder ≡ holder
unfolding advance
mutual_exclusion_example = mutual_exclusion {s = busy} holder holder busy-Reach refl refl

abbrev table : SetMap ℕ
table = some 7 ∷ none ∷ []

abbrev table_after : SetMap ℕ
table_after = some 7 ∷ some 4 ∷ []

-- The first set of all, in the table that is made for it, and one more.
semget-retrieve_set_example :
    ((addr : ℕ) × (map_set (giving []) 5 (pos 2) 0o1000 0 ≡ (ok addr, 3))
      × (retrieve_set {A = ℕ} [] 0 ≡ none)
      × (retrieve_set (some 4 ∷ replicate 127 none) 0 ≡ some addr))
    × ((addr : ℕ) × (map_set (giving []) 5 (pos 2) 0o1000 0 ≡ (ok addr, 3))
        × (retrieve_set table 1 ≡ none)
        × (retrieve_set table_after 0 ≡ some 7))
unfolding retrieve_set started first_free semget call
semget-retrieve_set_example = (
  semget-retrieve_set (giving []) [] [] 5 (pos 2) 0o1000 0 3 0 0 (some 4 ∷ replicate 127 none)
      (λ e. ground arith) refl,
  semget-retrieve_set (giving []) table [] 5 (pos 2) 0o1000 0 3 1 0 table_after (λ e. ground arith)
      refl,
)

-- Thread 0 holds the mutex, and thread 1 sleeps in the kernel.
abbrev one_sleeps : Machine
one_sleeps = record { sys = busy; parked = 1 ∷ [] }

one_sleeps-Runs : Runs one_sleeps
unfolding advance is_parked
one_sleeps-Runs =
    let first = goes begins (accesses 0 refl (λ e. cc) (λ e. cc)) in
    let held = goes first (accesses 0 refl (λ e. cc) (λ e. cc)) in
    let tried = goes held (accesses 1 refl (λ e. cc) (λ e. cc)) in
    goes (goes tried (accesses 1 refl (λ e. cc) (λ e. cc))) (sleeps 1 refl refl refl)

eventually-Holds_example : Holds 1 5 one_sleeps
eventually-Holds_example = eventually-Holds 1 one_sleeps-Runs

-- Thread 0 takes the mutex, waits and sleeps; then thread 1 takes it and adds one to the word.
abbrev twice : System → ℕ → System
twice s i = step (step s i) i

abbrev asleep : Shared
asleep = record {
  lock = twice (twice start 0) 0;
  cond = 0;
  place = put (put (put fresh.place 0 (unlocking 0)) 0 (waiting 0)) 0 (futex_wait_timed 0 0);
}

abbrev signalled : Shared
signalled = record {
  lock = twice asleep.lock 1;
  cond = signal_all 0;
  place = put asleep.place 1 signalling;
}

asleep-Reached : Reached asleep
unfolding advance in_mutex
asleep-Reached =
    let inside = on_mutex (on_mutex made 0 refl) 0 refl in
    let outside = on_mutex (on_mutex (load inside 0 refl refl) 0 refl) 0 refl in
    wait {v = 0} (unlocked_it {v = 0} outside 0 refl refl) 0 refl

signalled-Reached : Reached signalled
unfolding advance in_mutex futex_wait_timed
signalled-Reached = add_one (on_mutex (on_mutex asleep-Reached 1 refl) 1 refl) 1 refl refl

no_lost_wakeup_example :
    (j : ℕ) × (signalled.place j ≡ signalling)
    × (signalled.lock.pc j ≡ holding)
    × ((k : ℕ) → signalled.place k ≡ signalling → k ≡ j)
unfolding futex_wait_timed
no_lost_wakeup_example = no_lost_wakeup 0 0 signalled-Reached refl (omega arith)

-- Semaphore 1 goes up, semaphore 0 is waited for at zero: both can be.
abbrev at_zero : SemBuf
at_zero = record { sem_num = 0; sem_op = pos 0; nowait = true }

-- Of the set that `semget` maps, and of one that knows its size.
abbrev mapped_set : SemSet
mapped_set = record empty_set { nsems = 0 }

add_set_full_example : retrieve_set (add_set {A = ℕ} (some 1 ∷ []) [] 5).1 0 ≡ none
unfolding first_free
add_set_full_example = add_set_full (some 1) [] [] 5 0 refl (omega arith) (omega arith)

fresh_set_unusable_example :
    (semctl (some (fresh_set 2)) (pos 0) setval (pos 3) ≡ refused Errno.einval)
    × (semtimedop (some (fresh_set 2)) (up ∷ []) [] ≡ some (gave_up Errno.efbig (fresh_set 2)))
fresh_set_unusable_example = fresh_set_unusable 2 (pos 0) setval (pos 3) up [] [] (λ e. cc)
