-- ===== src/Shims/RobustLaws.antt =====
-- The list that get_robust_list gives in src/syscall.c.
use hxroot.Shims.Syscall.{write_words, robust_list}
use hxroot.Sem.Futex.{start}
use hxroot.Base.{ℕ, ◌+◌, ◌≤◌, ◌≡◌, ◌⊎◌, arith}

-- The word at `a` lies outside the `n` bytes from `start` on.
abbrev pub Outside : ℕ → ℕ → ℕ → Type 0
Outside start n a = (a + 8 ≤ start) ⊎ (start + n ≤ a)

-- The caller is given the head of a closed list of one element, and the length of a
-- `struct robust_list_head`: two steps from the head lead back to it, and nothing is pending. The two
-- static structures, of 56 and 16 bytes, and the caller's two words do not overlap.
pub robust_list-closed :
    (head node head_ptr sizep : ℕ) (mem : ℕ → ℕ)
    → (head + 56 ≤ node) ⊎ (node + 16 ≤ head)
    → Outside head 56 head_ptr
    → Outside node 16 head_ptr
    → Outside head 56 sizep
    → Outside node 16 sizep
    → Outside sizep 8 head_ptr
    → let after = write_words (robust_list head node head_ptr sizep) mem in
      (after (after (after head_ptr)) ≡ after head_ptr)
      × (after (after head_ptr + 16) ≡ 0)
      × (after sizep ≡ 24)
unfolding robust_list write_words
robust_list-closed head node head_ptr sizep mem a b c d e f =
    (ground arith, ground arith, ground arith)
