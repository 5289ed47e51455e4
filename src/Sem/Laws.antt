-- ===== src/Sem/Laws.antt =====
-- What `semtimedop` and `semctl` of src/sysvsem.c promise, and where they do not.
use mathlib.Core.Path.{subst}
use hxroot.Sem.Op.{
  nothing, semtimedop, waits_for, done, finish_round, SemBuf, check_ops, stop, waiting, modify,
  ncnt_op, Checked, checked, outside, semtimedop_loop, Wait, gave_up, HxOp, zcnt_op, check_one,
}
use hxroot.Sem.Rounds.{check_ops-KeepsValues, KeepsValues}
use hxroot.Sem.Sets.{
  semctl, Sem, unimplemented, fresh_set, refused, SemSet, Cmd, getncnt, getzcnt, setval, other,
}
use hxroot.Base.Int.{◌≤ℤ◌, negsuc, ℤ, ◌+ℤ◌, pos}
use hxroot.Sys.{Errno}
use hxroot.Base.{
  ℕ, suc, ◌<◌, ◌≡◌, ap, ◌∙◌, ◌≢◌, true, false, some, List, [], ◌∷◌, map, arith, get_elem?, set, All,
  zero, refl, sym, inl, inr, ltb, Bool-cases, Option-cases,
}

-- An operation that can be done at once: it waits for nothing.
zero_or_down :
    (op : SemBuf) (sem : Sem)
    → waits_for op sem ≡ nothing
    → pos 0 ≤ℤ sem.value
    → pos 0 ≤ℤ (sem.value +ℤ op.sem_op)
unfolding waits_for ◌+ℤ◌
zero_or_down op sem e h = ground arith

-- A call that is over at once with -1 has changed no semaphore's value.
pub semtimedop_loop_fail :
    (ops : List SemBuf) (set set' : SemSet) (e : Errno)
    → semtimedop_loop ops [] set ≡ gave_up e set'
    → map (λ s. s.value) set'.sems ≡ map (λ s. s.value) set.sems
unfolding semtimedop_loop
semtimedop_loop_fail ops set set' e h =
    go (check_ops set.nsems ops set.sems) (check_ops-KeepsValues set.nsems ops set.sems) h
  where
    go :
        (r : Checked)
        → KeepsValues set.sems r
        → finish_round ops set (λ undo s. waiting s) r ≡ gave_up e set'
        → map (λ s. s.value) set'.sems ≡ map (λ s. s.value) set.sems
    go (stop x s) k q =
        let same : s ≡ set'.sems = ground arith in ap (map (λ y. y.value)) (sym same) ∙ k
    go outside k q = cc
    go (checked s []) k q = cc
    go (checked s (u ∷ us)) k q = cc

-- The set that `semget` makes says of itself that it has no semaphore, so `semctl` refuses every
-- operation on it that it implements, and `semtimedop` every array of operations but the empty one.
pub fresh_set_unusable :
    (nsem : ℕ) (num : ℤ) (cmd : Cmd) (val : ℤ) (op : SemBuf) (ops : List SemBuf) (waits : List Wait)
    → cmd ≢ unimplemented
    → (semctl (some (fresh_set nsem)) num cmd val ≡ refused Errno.einval)
      × (semtimedop (some (fresh_set nsem)) (op ∷ ops) waits
          ≡ some (gave_up Errno.efbig (fresh_set nsem)))
unfolding semctl fresh_set semtimedop
fresh_set_unusable nsem num getncnt val op ops [] ne = (ground arith, ground arith)
fresh_set_unusable nsem num getzcnt val op ops [] ne = (ground arith, ground arith)
fresh_set_unusable nsem num setval val op ops [] ne = (ground arith, ground arith)
fresh_set_unusable nsem num unimplemented val op ops [] ne = absurd (ne refl)
fresh_set_unusable nsem num other val op ops [] ne = (ground arith, ground arith)
fresh_set_unusable nsem num getncnt val op ops (w ∷ waits) ne = (ground arith, ground arith)
fresh_set_unusable nsem num getzcnt val op ops (w ∷ waits) ne = (ground arith, ground arith)
fresh_set_unusable nsem num setval val op ops (w ∷ waits) ne = (ground arith, ground arith)
fresh_set_unusable nsem num unimplemented val op ops (w ∷ waits) ne = absurd (ne refl)
fresh_set_unusable nsem num other val op ops (w ∷ waits) ne = (ground arith, ground arith)

All-get {ℓ} :
    {A : Type 0} (P : A → Type ℓ) (xs : List A) (i : ℕ) {x : A}
    → All P xs
    → get_elem? xs i ≡ some x
    → P x
All-get P [] i h e = cc
All-get P (y ∷ xs) zero (p, h) e = let q : y ≡ _ = ground arith in subst P q p
All-get P (y ∷ xs) (suc i) (p, h) e = All-get P xs i h e

All-modify {ℓ} :
    {A : Type 0} (P : A → Type ℓ) (f : A → A) (xs : List A) (i : ℕ) {x : A}
    → All P xs
    → get_elem? xs i ≡ some x
    → P (f x)
    → All P (modify xs i f)
All-modify P f [] i h e k = h
All-modify P f (y ∷ xs) zero (p, h) e k =
    let q : _ ≡ y = sym (ground arith) in (subst (λ z. P (f z)) q k, h)
All-modify P f (y ∷ xs) (suc i) (p, h) e k = (p, All-modify P f xs i h e k)

abbrev pub NonNeg : List Sem → Type 0
NonNeg = All (λ s. pos 0 ≤ℤ s.value)

-- One operation that is done at its semaphore.
nonneg_one :
    (op : SemBuf) (set set' : SemSet) (sem : Sem) (w : HxOp)
    → NonNeg set.sems
    → get_elem? set.sems op.sem_num ≡ some sem
    → waits_for op sem ≡ w
    → finish_round (op ∷ []) set (λ undo s. waiting s) (check_one op set.sems (λ s. checked s []) w)
      ≡ done set'
    → NonNeg set'.sems
unfolding finish_round check_one
nonneg_one op set set' sem nothing nonneg g e h =
    let same : modify set.sems op.sem_num (λ s. record s { value = s.value +ℤ op.sem_op })
        ≡ set'.sems =
      ground arith in
    subst NonNeg same (
      All-modify (λ s. pos 0 ≤ℤ s.value) _ set.sems op.sem_num nonneg g
        (zero_or_down op sem e (All-get (λ s. pos 0 ≤ℤ s.value) set.sems op.sem_num nonneg g)))
nonneg_one op set set' sem ncnt_op nonneg g e h = absurd (ground arith)
nonneg_one op set set' sem zcnt_op nonneg g e h = absurd (ground arith)

-- A single operation that goes through leaves no value below zero where none was.
pub semtimedop_loop-nonneg :
    (op : SemBuf) (set set' : SemSet)
    → NonNeg set.sems
    → semtimedop_loop (op ∷ []) [] set ≡ done set'
    → NonNeg set'.sems
unfolding semtimedop_loop
semtimedop_loop-nonneg op set set' nonneg h = elim (Bool-cases (ltb op.sem_num set.nsems)) [
  | inr e ↦ absurd (ground arith)
  | inl e ↦ elim (Option-cases (get_elem? set.sems op.sem_num)) [
    | inl g ↦ absurd (ground arith)
    | inr (sem, g) ↦ nonneg_one op set set' sem (waits_for op sem) nonneg g refl (rw (e, g) at h)
  ]
]

-- Two operations on the first semaphore of a set that each take all of its value `n + 1` are
-- checked apart, and both are applied: the value ends at `-(n + 1)`.
pub two_downs :
    (n : ℕ) (sem : Sem) (rest : List Sem) (cond k : ℕ)
    → let op : SemBuf = record { sem_num = 0; sem_op = negsuc n; nowait = false } in
      semtimedop_loop
        (op ∷ op ∷ [])
        []
        (record { cond = cond; nsems = suc k; sems = record sem { value = pos (suc n) } ∷ rest })
      ≡ done (record { cond = cond; nsems = suc k; sems = record sem { value = negsuc n } ∷ rest })
unfolding semtimedop_loop ◌+ℤ◌
two_downs n sem rest cond k = ground arith

-- With `IPC_NOWAIT` a down operation that must wait is refused with `EAGAIN`, and the number of
-- processes that wait at its semaphore is left one too high.
pub nowait_leak :
    (op : SemBuf) (set : SemSet) (sem : Sem) (waits : List Wait)
    → op.sem_num < set.nsems
    → get_elem? set.sems op.sem_num ≡ some sem
    → waits_for op sem ≡ ncnt_op
    → op.nowait ≡ true
    → semtimedop_loop (op ∷ []) waits set
      ≡ gave_up Errno.eagain (record set {
        sems = modify set.sems op.sem_num (λ s. record s { ncnt = s.ncnt +ℤ pos 1 });
      })
unfolding semtimedop_loop
nowait_leak op set sem [] lt g w nw = ground arith
nowait_leak op set sem (x ∷ waits) lt g w nw = ground arith
