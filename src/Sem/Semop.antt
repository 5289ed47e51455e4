-- ===== src/Sem/Semop.antt =====
-- `semtimedop` of src/sysvsem.c does what semop(2) promises, if no semaphore is named twice.
use hxroot.Sem.Sets.{Sem}
use hxroot.Base.Int.{◌+ℤ◌, ℤ}
use hxroot.Base.{List, [], ◌∷◌}
use hxroot.Sem.Op.{SemBuf, modify}

-- The values that the last loop leaves.
unfoldable applied : List SemBuf → List ℤ → List ℤ
applied [] vs = vs
applied (op ∷ ops) vs = applied ops (modify vs op.sem_num (λ v. v +ℤ op.sem_op))
