-- ===== src/Sem/AtomicLaws.antt =====
-- The check of `semtimedop` of src/sysvsem.c lets an array of operations through where semop(2)
-- performs it, if no semaphore is named twice.
use hxroot.Base.Int.{ℤ, ◌+ℤ◌}
use mathlib.Core.Path.{subst}
use hxroot.Sem.Op.{outside, check_ops, count_waiter}
use hxroot.Sem.Op.{
  HxOp, ncnt_op, SemBuf, add_undo, waits_for, zcnt_op, HxOpInfo, check_one, modify, Checked,
  nothing, checked, stop,
}
use hxroot.Sem.Sets.{Sem}
use hxroot.Sem.Atomic.{too_big, can, perform, Distinct, any_nowait, Refused}
use hxroot.Sys.{Errno}
use hxroot.Base.{
  ℕ, zero, suc, ◌<◌, ◌≡◌, refl, ap, ◌≢◌, true, false, some, List, [], ◌∷◌, arith, length, get_elem?,
  sym, ◌⊎◌, inl, inr, Bool, if◌then◌else◌, All, ◌∙◌, Option, none, map_option, ◌≤◌, ◌&&◌, ltb,
  ltb→lt, Bool-cases, Option-cases,
}

can_iff : (op : SemBuf) (sem : Sem) → waits_for op sem ≡ nothing → can op sem.value ≡ true
unfolding waits_for can
can_iff op sem e = ground arith

cannot : (op : SemBuf) (sem : Sem) → waits_for op sem ≢ nothing → can op sem.value ≡ false
unfolding waits_for can
cannot op sem n = ground (arith, n)

module _ {A : Type 0} where
  get_elem?-modify_ne :
      (f : A → A) (xs : List A) (i j : ℕ) → i ≢ j → get_elem? (modify xs i f) j ≡ get_elem? xs j
  get_elem?-modify_ne f [] i j n = refl
  get_elem?-modify_ne f (x ∷ xs) zero zero n = absurd (n refl)
  get_elem?-modify_ne f (x ∷ xs) zero (suc j) n = refl
  get_elem?-modify_ne f (x ∷ xs) (suc i) zero n = refl
  get_elem?-modify_ne f (x ∷ xs) (suc i) (suc j) n =
      get_elem?-modify_ne f xs i j (λ e. n (ap suc e))

  length-modify : (f : A → A) (xs : List A) (i : ℕ) → length (modify xs i f) ≡ length xs
  length-modify f [] i = refl
  length-modify f (x ∷ xs) zero = refl
  length-modify f (x ∷ xs) (suc i) = ap suc (length-modify f xs i)

  get_elem?_within : (xs : List A) (i : ℕ) → i < length xs → (x : A) × (get_elem? xs i ≡ some x)
  get_elem?_within [] i l = absurd (omega arith)
  get_elem?_within (x ∷ xs) zero l = (x, refl)
  get_elem?_within (x ∷ xs) (suc i) l = get_elem?_within xs i (omega arith)

-- A check that came to its end without an access outside the set, and one that lets nothing through.
abbrev Fine : ℕ → List SemBuf → Checked → Type 0
Fine nsems ops (stop e s) = Refused nsems ops e
Fine nsems ops outside = ⊥
Fine nsems ops (checked s us) = too_big nsems ops ≡ false

abbrev pub Blocked : ℕ → List SemBuf → Checked → Type 0
Blocked nsems ops (stop e s) = Refused nsems ops e
Blocked nsems ops outside = ⊥
Blocked nsems ops (checked s []) = ⊥
Blocked nsems ops (checked s (u ∷ us)) = too_big nsems ops ≡ false

Blocked-Fine :
    (nsems : ℕ) (ops : List SemBuf) (r : Checked) → Blocked nsems ops r → Fine nsems ops r
Blocked-Fine nsems ops (stop e s) f = f
Blocked-Fine nsems ops outside f = f
Blocked-Fine nsems ops (checked s []) f = absurd f
Blocked-Fine nsems ops (checked s (u ∷ us)) f = f

is_nothing : (w : HxOp) → (w ≡ nothing) ⊎ (w ≢ nothing)
is_nothing nothing = inl refl
is_nothing ncnt_op = inr (λ e. cc)
is_nothing zcnt_op = inr (λ e. cc)

-- One operation on a semaphore of the set, before others.
module _ (nsems : ℕ) (op : SemBuf) (ops : List SemBuf) (l : ltb op.sem_num nsems ≡ true) where
  too_big_cons : too_big nsems (op ∷ ops) ≡ too_big nsems ops
  unfolding too_big
  too_big_cons = rw l refl

  any_nowait_cons : any_nowait ops ≡ true → any_nowait (op ∷ ops) ≡ true
  unfolding any_nowait
  any_nowait_cons e = ground arith

  any_nowait_here : op.nowait ≡ true → any_nowait (op ∷ ops) ≡ true
  unfolding any_nowait
  any_nowait_here e = rw e refl

  Refused-cons : (e : Errno) → Refused nsems ops e → Refused nsems (op ∷ ops) e
  Refused-cons e (inl (q, b)) = inl (q, too_big_cons ∙ b)
  Refused-cons e (inr (q, b)) = inr (q, any_nowait_cons b)

  Fine-cons : (r : Checked) → Fine nsems ops r → Fine nsems (op ∷ ops) r
  Fine-cons (stop e s) f = Refused-cons e f
  Fine-cons outside f = f
  Fine-cons (checked s us) f = too_big_cons ∙ f

  add_undo-Blocked :
      (u : HxOpInfo) (r : Checked) → Fine nsems ops r → Blocked nsems (op ∷ ops) (add_undo u r)
  add_undo-Blocked u (stop e s) f = Refused-cons e f
  add_undo-Blocked u outside f = f
  add_undo-Blocked u (checked s us) f = too_big_cons ∙ f

  choice-Blocked :
      (nowait : Bool) (u : HxOpInfo) (s : List Sem) (r : Checked)
      → op.nowait ≡ nowait
      → Fine nsems ops r
      → Blocked nsems (op ∷ ops) (if nowait then stop Errno.eagain s else add_undo u r)
  choice-Blocked true u s r e f = inr (refl, any_nowait_here e)
  choice-Blocked false u s r e f = add_undo-Blocked u r f

  -- The check of one operation that must wait, and of any.
  check_one-Blocked :
      (sems : List Sem) (rest : List Sem → Checked) (w : HxOp)
      → ((s : List Sem) → length s ≡ length sems → Fine nsems ops (rest s))
      → w ≢ nothing
      → Blocked nsems (op ∷ ops) (check_one op sems rest w)
  unfolding check_one
  check_one-Blocked sems rest nothing f n = absurd (n refl)
  check_one-Blocked sems rest ncnt_op f n =
      choice-Blocked op.nowait _ _ _ refl
        (f _ (length-modify (count_waiter ncnt_op) sems op.sem_num))
  check_one-Blocked sems rest zcnt_op f n =
      choice-Blocked op.nowait _ _ _ refl
        (f _ (length-modify (count_waiter zcnt_op) sems op.sem_num))

  check_one-Fine :
      (sems : List Sem) (rest : List Sem → Checked) (w : HxOp)
      → ((s : List Sem) → length s ≡ length sems → Fine nsems ops (rest s))
      → Fine nsems (op ∷ ops) (check_one op sems rest w)
  unfolding check_one
  check_one-Fine sems rest w f = elim (is_nothing w) [
    | inl e ↦ rw e (Fine-cons (rest sems) (f sems refl))
    | inr n ↦ Blocked-Fine nsems (op ∷ ops) _ (check_one-Blocked sems rest w f n)
  ]

-- One step of the check, in range and out of it.
check_ops_step :
    (nsems : ℕ) (op : SemBuf) (ops : List SemBuf) (sems : List Sem) (sem : Sem)
    → ltb op.sem_num nsems ≡ true
    → get_elem? sems op.sem_num ≡ some sem
    → check_ops nsems (op ∷ ops) sems ≡ check_one op sems (check_ops nsems ops) (waits_for op sem)
unfolding check_ops
check_ops_step nsems op ops sems sem l g = rw (l, g) refl

too_big_outside :
    (nsems : ℕ) (op : SemBuf) (ops : List SemBuf)
    → ltb op.sem_num nsems ≡ false
    → too_big nsems (op ∷ ops) ≡ true
unfolding too_big
too_big_outside nsems op ops l = rw l refl

check_ops-Blocked :
    (nsems : ℕ) (op : SemBuf) (ops : List SemBuf) (sems : List Sem)
    → ltb op.sem_num nsems ≡ false
    → Blocked nsems (op ∷ ops) (check_ops nsems (op ∷ ops) sems)
unfolding check_ops
check_ops-Blocked nsems op ops sems l = rw l (inl (refl, too_big_outside nsems op ops l))

check_ops-Fine :
    (nsems : ℕ) (ops : List SemBuf) (sems : List Sem)
    → nsems ≤ length sems
    → Fine nsems ops (check_ops nsems ops sems)
unfolding check_ops too_big
check_ops-Fine nsems [] sems a = refl
check_ops-Fine nsems (op ∷ ops) sems a = elim (Bool-cases (ltb op.sem_num nsems)) [
  | inr l ↦ Blocked-Fine nsems (op ∷ ops) _ (check_ops-Blocked nsems op ops sems l)
  | inl l ↦
      let below = ltb→lt _ _ l in
      let (sem, g) = get_elem?_within sems op.sem_num (omega arith) in
      subst (Fine nsems (op ∷ ops)) (sym (check_ops_step nsems op ops sems sem l g)) (
        check_one-Fine nsems op ops l sems (check_ops nsems ops) (waits_for op sem)
          (λ s e. check_ops-Fine nsems ops s (rw e a)))
]

check_one_nothing :
    (op : SemBuf) (sems : List Sem) (rest : List Sem → Checked)
    → check_one op sems rest nothing ≡ rest sems
unfolding check_one
check_one_nothing op sems rest = refl

perform-can :
    (nsems : ℕ) (op : SemBuf) (ops : List SemBuf) (vs : List ℤ) (v : ℤ)
    → ltb op.sem_num nsems ≡ true
    → get_elem? vs op.sem_num ≡ some v
    → can op v ≡ true
    → perform nsems (op ∷ ops) vs ≡ perform nsems ops (modify vs op.sem_num (λ x. x +ℤ op.sem_op))
unfolding perform
perform-can nsems op ops vs v l g c = rw (perform, g, l, c) refl

perform-cannot :
    (nsems : ℕ) (op : SemBuf) (ops : List SemBuf) (vs : List ℤ) (v : ℤ)
    → get_elem? vs op.sem_num ≡ some v
    → (ltb op.sem_num nsems && can op v) ≡ false
    → perform nsems (op ∷ ops) vs ≡ none
unfolding perform
perform-cannot nsems op ops vs v g c = rw (perform, g, c) refl

-- The semaphores of the operations have these values.
abbrev pub Agrees : List Sem → List ℤ → List SemBuf → Type 0
Agrees sems vs ops =
    All (λ op. get_elem? vs op.sem_num ≡ map_option (λ s. s.value) (get_elem? sems op.sem_num)) ops

Agrees-modify :
    (sems : List Sem) (vs : List ℤ) (ops : List SemBuf) (i : ℕ) (f : ℤ → ℤ)
    → All (λ o. i ≢ o.sem_num) ops
    → Agrees sems vs ops
    → Agrees sems (modify vs i f) ops
Agrees-modify sems vs [] i f n a = tt
Agrees-modify sems vs (op ∷ ops) i f (n, ns) (a, as_all) =
    (get_elem?-modify_ne f vs i op.sem_num n ∙ a, Agrees-modify sems vs ops i f ns as_all)

-- The check lets all operations through where they can be performed one after another, and none
-- where they cannot.
abbrev pub CheckMeets : ℕ → List SemBuf → List Sem → Checked → Option (List ℤ) → Type 0
CheckMeets nsems ops sems r (some vs) = r ≡ checked sems []
CheckMeets nsems ops sems r none = Blocked nsems ops r

-- The operation can be done, if `rest` is so for the ones behind it.
check_ops_can :
    (nsems : ℕ) (op : SemBuf) (ops : List SemBuf) (sems : List Sem) (o : Option (List ℤ))
    → ltb op.sem_num nsems ≡ true
    → CheckMeets nsems ops sems (check_ops nsems ops sems) o
    → CheckMeets nsems (op ∷ ops) sems (check_ops nsems ops sems) o
check_ops_can nsems op ops sems (some vs) l h = h
check_ops_can nsems op ops sems none l h = blocked (check_ops nsems ops sems) h
  where
    blocked : (r : Checked) → Blocked nsems ops r → Blocked nsems (op ∷ ops) r
    blocked (stop e s) f = Refused-cons nsems op ops l e f
    blocked outside f = f
    blocked (checked s []) f = f
    blocked (checked s (u ∷ us)) f = too_big_cons nsems op ops l ∙ f

and_false : (a b : Bool) → b ≡ false → (a && b) ≡ false
and_false true b e = e
and_false false b e = refl

-- An operation that is refused because its semaphore is not in the set.
perform_outside :
    (nsems : ℕ) (op : SemBuf) (ops : List SemBuf) (vs : List ℤ)
    → ltb op.sem_num nsems ≡ false
    → perform nsems (op ∷ ops) vs ≡ none
unfolding perform
perform_outside nsems op ops vs l = elim (Option-cases (get_elem? vs op.sem_num)) [
  | inl g ↦ rw (perform, g) refl
  | inr (v, g) ↦ rw (perform, g, l) refl
]

-- One that is on a semaphore of the set.
module _ (nsems : ℕ) (op : SemBuf) (ops : List SemBuf) (sems : List Sem) (vs : List ℤ) (sem : Sem)
    (l : ltb op.sem_num nsems ≡ true) (g : get_elem? sems op.sem_num ≡ some sem)
    (v : get_elem? vs op.sem_num ≡ some sem.value) where
  abbrev Goal : Checked → Option (List ℤ) → Type 0
  Goal = CheckMeets nsems (op ∷ ops) sems

  step_can :
      waits_for op sem ≡ nothing
      → CheckMeets nsems ops sems
          (check_ops nsems ops sems)
          (perform nsems ops (modify vs op.sem_num (λ x. x +ℤ op.sem_op)))
      → Goal (check_ops nsems (op ∷ ops) sems) (perform nsems (op ∷ ops) vs)
  step_can w ih =
      let next = perform nsems ops (modify vs op.sem_num (λ x. x +ℤ op.sem_op)) in
      subst (Goal (check_ops nsems (op ∷ ops) sems))
        (sym (perform-can nsems op ops vs sem.value l v (can_iff op sem w)))
        (subst (λ r. Goal r next)
          (sym (
            check_ops_step nsems op ops sems sem l g
            ∙ ap (check_one op sems (check_ops nsems ops)) w
            ∙ check_one_nothing op sems (check_ops nsems ops)))
          (check_ops_can nsems op ops sems next l ih))

  step_cannot :
      waits_for op sem ≢ nothing
      → ((s : List Sem) → length s ≡ length sems → Fine nsems ops (check_ops nsems ops s))
      → Goal (check_ops nsems (op ∷ ops) sems) (perform nsems (op ∷ ops) vs)
  step_cannot w fine =
      subst (Goal (check_ops nsems (op ∷ ops) sems))
        (sym (perform-cannot nsems op ops vs sem.value v (and_false _ _ (cannot op sem w))))
        (subst (Blocked nsems (op ∷ ops)) (sym (check_ops_step nsems op ops sems sem l g))
          (check_one-Blocked nsems op ops l sems (check_ops nsems ops) (waits_for op sem) fine w))

pub check_ops-perform :
    (nsems : ℕ) (ops : List SemBuf) (sems : List Sem) (vs : List ℤ)
    → nsems ≤ length sems
    → Distinct ops
    → Agrees sems vs ops
    → CheckMeets nsems ops sems (check_ops nsems ops sems) (perform nsems ops vs)
unfolding check_ops perform
check_ops-perform nsems [] sems vs a d h = refl
check_ops-perform nsems (op ∷ ops) sems vs a (n, d) (e, h) =
    elim (Bool-cases (ltb op.sem_num nsems)) [
      | inr l ↦
          subst (CheckMeets nsems (op ∷ ops) sems (check_ops nsems (op ∷ ops) sems))
            (sym (perform_outside nsems op ops vs l)) (check_ops-Blocked nsems op ops sems l)
      | inl l ↦
          let below = ltb→lt _ _ l in
          let (sem, g) = get_elem?_within sems op.sem_num (omega arith) in
          let v : get_elem? vs op.sem_num ≡ some sem.value = e ∙ ap (map_option (λ s. s.value)) g in
          elim (is_nothing (waits_for op sem)) [
            | inl w ↦ step_can nsems op ops sems vs sem l g v w (
                check_ops-perform nsems ops sems _ a d
                  (Agrees-modify sems vs ops op.sem_num (λ x. x +ℤ op.sem_op) n h))
            | inr w ↦
                step_cannot nsems op ops sems vs sem l g v w
                  (λ s q. check_ops-Fine nsems ops s (rw q a))
          ]
    ]
