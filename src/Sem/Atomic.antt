-- ===== src/Sem/Atomic.antt =====
-- What semop(2) promises of an array of operations, by the values of the semaphores alone: they are
-- performed in their order, all of them or, if one of them cannot be, none.
use hxroot.Sem.Op.{waiting}
use hxroot.Sem.Op.{done, gave_up, SemBuf, modify, Done}
use hxroot.Sem.Sets.{SemSet}
use hxroot.Base.Int.{ℤ, ◌+ℤ◌, eqb_ℤ, pos, ltb_ℤ}
use hxroot.Sys.{Errno}
use hxroot.Base.{
  ◌≡◌, ◌≢◌, Bool, not, ◌&&◌, Option, none, some, List, [], ◌∷◌, map, if◌then◌else◌, get_elem?, All,
  ℕ, suc, ◌+◌, ◌%◌, ◌^◌, ◌⊎◌, true, false, ◌||◌, ltb,
}

-- An operation that does not have to wait at a semaphore of this value.
unfoldable pub can : SemBuf → ℤ → Bool
can op v =
    if eqb_ℤ op.sem_op (pos 0)
    then eqb_ℤ v (pos 0)
    else not (ltb_ℤ op.sem_op (pos 0) && ltb_ℤ (op.sem_op +ℤ v) (pos 0))

-- The values after the operations, on a set that says of itself that it has `nsems` semaphores.
unfoldable pub perform : ℕ → List SemBuf → List ℤ → Option (List ℤ)
unfolding can
perform nsems [] vs = some vs
perform nsems (op ∷ ops) vs =
    let rest = perform nsems ops (modify vs op.sem_num (λ v. v +ℤ op.sem_op)) in
    elim (get_elem? vs op.sem_num) [
      | none ↦ none
      | some v ↦ if ltb op.sem_num nsems && can op v then rest else none
    ]

-- An operation is on no semaphore of the set.
unfoldable pub too_big : ℕ → List SemBuf → Bool
too_big nsems [] = false
too_big nsems (op ∷ ops) = not (ltb op.sem_num nsems) || too_big nsems ops

-- An operation has `IPC_NOWAIT`.
unfoldable pub any_nowait : List SemBuf → Bool
any_nowait [] = false
any_nowait (op ∷ ops) = op.nowait || any_nowait ops

-- The errors that an array of operations may be refused with.
abbrev pub Refused : ℕ → List SemBuf → Errno → Type 0
Refused nsems ops e =
    ((e ≡ Errno.efbig) × (too_big nsems ops ≡ true))
    ⊎ ((e ≡ Errno.eagain) × (any_nowait ops ≡ true))

abbrev pub values : SemSet → List ℤ
values x = map (λ s. s.value) x.sems

-- How many of the operations raise a value.
unfoldable pub raises : List SemBuf → ℕ
raises [] = 0
raises (op ∷ ops) = if ltb_ℤ (pos 0) op.sem_op then suc (raises ops) else raises ops

-- An end of `semtimedop` that is what was promised: done with these values, one wake-up of the
-- waiters for each value raised; or refused or waiting with the values as they were and no wake-up:
-- refused with `EFBIG` only if an operation is on no semaphore of the set, with `EAGAIN` only if one
-- has `IPC_NOWAIT`, and waiting only if each is on a semaphore of the set.
abbrev pub Meets : SemSet → List SemBuf → Done → Option (List ℤ) → Type 0
Meets x ops (done y) (some vs) = (values y ≡ vs) × (y.cond ≡ (x.cond + raises ops) % 2 ^ 32)
Meets x ops (gave_up e y) none = Refused x.nsems ops e × (values y ≡ values x) × (y.cond ≡ x.cond)
Meets x ops (waiting y) none =
    (too_big x.nsems ops ≡ false) × (values y ≡ values x) × (y.cond ≡ x.cond)
Meets x ops _ _ = ⊥

-- No two operations are on the same semaphore.
abbrev pub Distinct : List SemBuf → Type 0
Distinct [] = Unit
Distinct (op ∷ ops) = All (λ o. op.sem_num ≢ o.sem_num) ops × Distinct ops
