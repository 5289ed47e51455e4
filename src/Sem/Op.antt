-- ===== src/Sem/Op.antt =====
-- `semtimedop` of src/sysvsem.c, with its set locked. Signed overflow of a semaphore's value, which
-- C leaves undefined, is outside the model: values are integers.
use hxroot.Sem.Sets.{SemSet, signal_all, Sem}
use hxroot.Base.Int.{◌+ℤ◌, ◌-ℤ◌, eqb_ℤ, ltb_ℤ, pos, ℤ}
use hxroot.Sys.{Errno}
use hxroot.Base.{
  ℕ, zero, suc, Bool, Option, none, some, List, [], ◌∷◌, ◌++◌, ltb, if◌then◌else◌, get_elem?, set,
}

-- `struct sembuf`, with `IPC_NOWAIT` of its flags
pub record SemBuf : Type 0 where
  pub sem_num : ℕ
  pub sem_op : ℤ
  pub nowait : Bool

-- `enum HxOp`
pub data HxOp : Type 0 where
  nothing ncnt_op zcnt_op : HxOp

-- `struct HxOpInfo`
pub record HxOpInfo : Type 0 where
  pub semnum : ℕ
  pub op : HxOp

-- What an operation would wait for at this semaphore; `nothing` if it can be done.
unfoldable pub waits_for : SemBuf → Sem → HxOp
waits_for op sem =
    if eqb_ℤ op.sem_op (pos 0)
    then (if eqb_ℤ sem.value (pos 0) then nothing else zcnt_op)
    else if ltb_ℤ op.sem_op (pos 0)
    then (if ltb_ℤ (op.sem_op +ℤ sem.value) (pos 0) then ncnt_op else nothing)
    else nothing

-- `sem->zcnt += 1`, `sem->ncnt += 1`, and the same with `-= 1`
unfoldable pub count_waiter : HxOp → Sem → Sem
count_waiter nothing sem = sem
count_waiter ncnt_op sem = record sem { ncnt = sem.ncnt +ℤ pos 1 }
count_waiter zcnt_op sem = record sem { zcnt = sem.zcnt +ℤ pos 1 }

unfoldable pub uncount_waiter : HxOp → Sem → Sem
uncount_waiter nothing sem = sem
uncount_waiter ncnt_op sem = record sem { ncnt = sem.ncnt -ℤ pos 1 }
uncount_waiter zcnt_op sem = record sem { zcnt = sem.zcnt -ℤ pos 1 }

-- Change one element; out of bounds nothing is changed.
abbrev pub modify : {A : Type 0} → List A → ℕ → (A → A) → List A
modify [] i f = []
modify (x ∷ xs) zero f = f x ∷ xs
modify (x ∷ xs) (suc i) f = x ∷ modify xs i f

-- How the first loop ends: with -1 and `errno`, with an access outside the set, or by its bound;
-- then `undo` is `undo_ops` up to `undo_idx`, which is empty exactly if `can_process`.
pub data Checked : Type 0 where
  stop : Errno → List Sem → Checked
  outside : Checked
  checked : List Sem → (undo : List HxOpInfo) → Checked

abbrev pub add_undo : HxOpInfo → Checked → Checked
add_undo u (stop e sems) = stop e sems
add_undo u outside = outside
add_undo u (checked sems undo) = checked sems (u ∷ undo)

-- The check of one operation at its semaphore, `w` being what it waits for; `rest` checks the others.
unfoldable pub check_one : SemBuf → List Sem → (List Sem → Checked) → HxOp → Checked
unfolding count_waiter
check_one op sems rest nothing = rest sems
check_one op sems rest w =
    let sems' = modify sems op.sem_num (count_waiter w) in
    if op.nowait
    then stop Errno.eagain sems'
    else add_undo (record { semnum = op.sem_num; op = w }) (rest sems')

-- The first loop.
unfoldable pub check_ops : ℕ → List SemBuf → List Sem → Checked
unfolding waits_for check_one
check_ops nsems [] sems = checked sems []
check_ops nsems (op ∷ ops) sems =
    if ltb op.sem_num nsems
    then (elim (get_elem? sems op.sem_num) [
      | none ↦ outside
      | some sem ↦ check_one op sems (check_ops nsems ops) (waits_for op sem)
    ])
    else stop Errno.efbig sems

-- The body of the loop after the wait; `none` writes outside the set.
unfoldable pub undo_at : HxOp → ℕ → List Sem → Option (List Sem)
unfolding uncount_waiter
undo_at nothing i sems = some sems
undo_at w i sems = elim (get_elem? sems i) [
  | none ↦ none
  | some sem ↦ some (modify sems i (uncount_waiter w))
]

-- The loop, `i` running from 0 to `undo_idx` itself.
unfoldable pub undo_all : List HxOpInfo → List Sem → Option (List Sem)
unfolding undo_at
undo_all [] sems = some sems
undo_all (u ∷ us) sems = elim (undo_at u.op u.semnum sems) [
  | none ↦ none
  | some sems' ↦ undo_all us sems'
]

-- The last loop.
unfoldable pub apply_ops : List SemBuf → List Sem → ℕ → List Sem × ℕ
apply_ops [] sems cond = (sems, cond)
apply_ops (op ∷ ops) sems cond =
    apply_ops ops (modify sems op.sem_num (λ sem. record sem { value = sem.value +ℤ op.sem_op }))
      (if ltb_ℤ (pos 0) op.sem_op then signal_all cond else cond)

-- How a call ends: 0, -1 with `errno`, or an access outside the set; or it still waits when the
-- given waits are over.
pub data Done : Type 0 where
  done : SemSet → Done
  gave_up : Errno → SemSet → Done
  fault : Done
  waiting : SemSet → Done

-- One wait: what other processes make of the set meanwhile, the `errno` if the wait fails, and what
-- stands in `undo_ops[undo_idx]`, an element that nobody wrote.
pub record Wait : Type 0 where
  pub others : SemSet → SemSet
  pub result : Option Errno
  pub unwritten : HxOpInfo

-- The set after a wait; `none` writes outside of it.
unfoldable pub after_wait : Wait → List HxOpInfo → SemSet → Option SemSet
unfolding undo_all
after_wait w undo set =
    let set' = w.others set in
    elim (undo_all (undo ++ (w.unwritten ∷ [])) set'.sems) [
      | none ↦ none
      | some sems ↦ some (record set' { sems = sems })
    ]

-- What a round does after its check: it is over, or it goes on after a wait.
unfoldable pub finish_round :
    List SemBuf → SemSet → (List HxOpInfo → SemSet → Done) → Checked → Done
unfolding apply_ops
finish_round ops set wait (stop e sems) = gave_up e (record set { sems = sems })
finish_round ops set wait outside = fault
finish_round ops set wait (checked sems []) =
    let r = apply_ops ops sems set.cond in done (record set { sems = r.0; cond = r.1 })
finish_round ops set wait (checked sems (u ∷ us)) = wait (u ∷ us) (record set { sems = sems })

-- The loop of `semtimedop`: one round, and another one after each wait that succeeds.
unfoldable pub semtimedop_loop : List SemBuf → List Wait → SemSet → Done
unfolding check_ops finish_round after_wait
semtimedop_loop ops [] set =
    finish_round ops set (λ undo s. waiting s) (check_ops set.nsems ops set.sems)
semtimedop_loop ops (w ∷ waits) set =
    finish_round ops set
      (λ undo s. elim (after_wait w undo s) [
        | none ↦ fault
        | some s' ↦ elim w.result [ some e ↦ gave_up e s' | none ↦ semtimedop_loop ops waits s' ]
      ])
      (check_ops set.nsems ops set.sems)

-- `semtimedop`; `found` is what `RetrieveSetFromMap` gives for the id, and `none` is -1 with
-- `EINVAL`.
unfoldable pub semtimedop : Option SemSet → List SemBuf → List Wait → Option Done
unfolding semtimedop_loop
semtimedop none ops waits = none
semtimedop (some set) ops waits = some (semtimedop_loop ops waits set)

unfoldable pub semop : Option SemSet → List SemBuf → List Wait → Option Done
unfolding semtimedop
semop found ops waits = semtimedop found ops waits
