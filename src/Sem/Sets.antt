-- ===== src/Sem/Sets.antt =====
-- A semaphore set, `semget`'s new sets and `semctl` of src/sysvsem.c. The lock around each access is
-- the matter of `Futex`: these functions are what happens while it is held.
use hxroot.Wrap.Dirs.{creat}
use hxroot.Base.Int.{pos, ℤ, ltb_ℤ, pos_part}
use hxroot.Sys.{errs, Errno, gives, Result}
use hxroot.Base.{
  ℕ, ◌+◌, ◌%◌, ◌^◌, Bool, ◌&&◌, ◌||◌, Option, none, some, List, ltb, if◌then◌else◌, get_elem?, set,
  replicate,
}

-- `struct HxSem`
pub record Sem : Type 0 where
  pub value : ℤ
  pub ncnt : ℤ
  pub zcnt : ℤ
  pub pid : ℤ

-- `struct HxSemSet` without its lock: `cond` is an unsigned counter of 32 bits, and `nsems`, an int
-- in a mapping that starts zeroed, is never negative.
pub record SemSet : Type 0 where
  pub cond : ℕ
  pub nsems : ℕ
  pub sems : List Sem

abbrev pub zero_sem : Sem
zero_sem = record { value = pos 0; ncnt = pos 0; zcnt = pos 0; pid = pos 0 }

-- The set behind the mapping that `semget` makes for `nsem` semaphores: zeroed memory of
-- `SET_SIZE(nsem)` bytes, to which `semget` writes nothing.
unfoldable pub fresh_set : ℕ → SemSet
fresh_set nsem = record { cond = 0; nsems = 0; sems = replicate nsem zero_sem }

-- `CondSignalAllShared`, as far as memory goes: the wake-up is the kernel's.
abbrev pub signal_all : ℕ → ℕ
signal_all cond = (cond + 1) % 2 ^ 32

abbrev pub semmsl : ℕ
semmsl = 32000

-- `semget` for `IPC_PRIVATE`: the first test, and then the set; `room` is whether the mapping and
-- the table give room.
unfoldable pub semget_private : Bool → ℤ → Bool → Result SemSet
unfolding fresh_set
semget_private creat nsem room =
    if creat && (ltb_ℤ nsem (pos 0) || ltb_ℤ (pos semmsl) nsem)
    then errs Errno.einval
    else if room
    then gives (fresh_set (pos_part nsem))
    else errs (Errno.errno 12)

-- The operations of `semctl`, by what the switch does with them.
pub data Cmd : Type 0 where
  getncnt getzcnt setval unimplemented other : Cmd

-- What a call leaves: a value and the set, -1 with `errno`, or an abort.
pub data Ctl : Type 0 where
  value : ℤ → SemSet → Ctl
  refused : Errno → Ctl
  gone : Ctl

-- `set->sems[num]` with the test before it; `none` is `EINVAL`, or a read outside the set.
unfoldable pub sem_at : SemSet → ℕ → Option Sem
sem_at set num = if ltb num set.nsems then get_elem? set.sems num else none

unfoldable pub semctl_getncnt : Option SemSet → ℕ → Ctl
unfolding sem_at
semctl_getncnt none num = refused Errno.einval
semctl_getncnt (some set) num = elim (sem_at set num) [
  | none ↦ refused Errno.einval
  | some sem ↦ value sem.ncnt set
]

unfoldable pub semctl_getzcnt : Option SemSet → ℕ → Ctl
unfolding sem_at
semctl_getzcnt none num = refused Errno.einval
semctl_getzcnt (some set) num = elim (sem_at set num) [
  | none ↦ refused Errno.einval
  | some sem ↦ value sem.zcnt set
]

abbrev pub put_value : List Sem → ℕ → Sem → ℤ → List Sem
put_value sems num sem val = set sems num (record sem { value = val })

unfoldable pub semctl_setval : Option SemSet → ℕ → ℤ → Ctl
unfolding sem_at
semctl_setval none num val = refused Errno.einval
semctl_setval (some s) num val = elim (sem_at s num) [
  | none ↦ refused Errno.einval
  | some sem ↦
      value (pos 0) (record s { sems = put_value s.sems num sem val; cond = signal_all s.cond })
]

-- `semctl`; `found` is what `RetrieveSetFromMap` gives for the id.
unfoldable pub semctl : Option SemSet → ℤ → Cmd → ℤ → Ctl
unfolding semctl_getncnt semctl_getzcnt semctl_setval
semctl found num op val =
    if ltb_ℤ num (pos 0) || ltb_ℤ (pos semmsl) num then refused Errno.einval else (elim op [
      | getncnt ↦ semctl_getncnt found (pos_part num)
      | getzcnt ↦ semctl_getzcnt found (pos_part num)
      | setval ↦ semctl_setval found (pos_part num) val
      | unimplemented ↦ gone
      | other ↦ refused Errno.einval
    ])
