-- ===== src/Sem/Rounds.antt =====
-- What the check of `semtimedop` of src/sysvsem.c leaves as it is: the lemmas behind `Laws`.
use hxroot.Sem.Sets.{Sem}
use hxroot.Sem.Op.{
  HxOpInfo, ncnt_op, HxOp, check_ops, zcnt_op, Checked, count_waiter, stop, outside, SemBuf,
  add_undo, modify, checked, nothing, waits_for, check_one,
}
use hxroot.Base.{
  ℕ, zero, suc, ◌≡◌, refl, ap, ◌∙◌, inl, inr, List, [], ◌∷◌, map, Bool-cases, ltb, Option-cases,
  get_elem?,
}

pub map-modify :
    {A B : Type 0} (f : A → B) (g : A → A)
    → ((a : A) → f (g a) ≡ f a)
    → (xs : List A) (i : ℕ) → map f (modify xs i g) ≡ map f xs
map-modify f g c [] i = refl
map-modify f g c (x ∷ xs) zero = ap (λ y. y ∷ map f xs) (c x)
map-modify f g c (x ∷ xs) (suc i) = ap (◌∷◌ (f x)) (map-modify f g c xs i)

count_waiter-value : (w : HxOp) (s : Sem) → (count_waiter w s).value ≡ s.value
unfolding count_waiter
count_waiter-value nothing s = refl
count_waiter-value ncnt_op s = refl
count_waiter-value zcnt_op s = refl

-- What no check changes.
abbrev pub KeepsValues : List Sem → Checked → Type 0
KeepsValues sems (stop e s) = map (λ x. x.value) s ≡ map (λ x. x.value) sems
KeepsValues sems outside = Unit
KeepsValues sems (checked s us) = map (λ x. x.value) s ≡ map (λ x. x.value) sems

modify-values :
    (sems : List Sem) (i : ℕ) (w : HxOp)
    → map (λ x. x.value) (modify sems i (count_waiter w)) ≡ map (λ x. x.value) sems
modify-values sems i w = map-modify (λ x. x.value) (count_waiter w) (count_waiter-value w) sems i

KeepsValues-modify :
    (i : ℕ) (w : HxOp) (sems : List Sem) (u : HxOpInfo) (r : Checked)
    → KeepsValues (modify sems i (count_waiter w)) r
    → KeepsValues sems (add_undo u r)
KeepsValues-modify i w sems u (stop e s) h = h ∙ modify-values sems i w
KeepsValues-modify i w sems u outside h = tt
KeepsValues-modify i w sems u (checked s us) h = h ∙ modify-values sems i w

check_one-KeepsValues :
    (op : SemBuf) (sems : List Sem) (rest : List Sem → Checked) (w : HxOp)
    → ((s : List Sem) → KeepsValues s (rest s))
    → KeepsValues sems (check_one op sems rest w)
unfolding check_one
check_one-KeepsValues op sems rest nothing h = h sems
check_one-KeepsValues op sems rest ncnt_op h = elim (Bool-cases op.nowait) [
  | inl e ↦ rw e (modify-values sems op.sem_num ncnt_op)
  | inr e ↦ rw e (KeepsValues-modify op.sem_num ncnt_op sems _ _ (h _))
]
check_one-KeepsValues op sems rest zcnt_op h = elim (Bool-cases op.nowait) [
  | inl e ↦ rw e (modify-values sems op.sem_num zcnt_op)
  | inr e ↦ rw e (KeepsValues-modify op.sem_num zcnt_op sems _ _ (h _))
]

pub check_ops-KeepsValues :
    (nsems : ℕ) (ops : List SemBuf) (sems : List Sem) → KeepsValues sems (check_ops nsems ops sems)
unfolding check_ops
check_ops-KeepsValues nsems [] sems = refl
check_ops-KeepsValues nsems (op ∷ ops) sems = elim (Bool-cases (ltb op.sem_num nsems)) [
  | inr e ↦ rw e refl
  | inl e ↦ elim (Option-cases (get_elem? sems op.sem_num)) [
    | inl g ↦ rw (e, g) tt
    | inr (sem, g) ↦
        rw (e, g)
          (check_one-KeepsValues op sems (check_ops nsems ops) (waits_for op sem)
            (check_ops-KeepsValues nsems ops))
  ]
]
