-- ===== src/Shims/Syscall.antt =====
-- src/syscall.c, src/audit.c, src/prctl.c and src/setgroups.c.
use hxroot.Sys.{Op, throw, M, return, Kernel, Errno, host, word}
use hxroot.Base.{ℕ, ◌||◌, List, [], ◌∷◌, ◌==◌, if◌then◌else◌, Text, ◌+◌, ◌-◌, ◌^◌}

-- `__NR_keyctl`, `__NR_landlock_…` and `__NR_get_robust_list` of the target
abbrev pub nr_keyctl : ℕ
nr_keyctl = 219

abbrev pub nr_landlock_create_ruleset : ℕ
nr_landlock_create_ruleset = 444

abbrev pub nr_landlock_add_rule : ℕ
nr_landlock_add_rule = 445

abbrev pub nr_landlock_restrict_self : ℕ
nr_landlock_restrict_self = 446

abbrev pub nr_get_robust_list : ℕ
nr_get_robust_list = 100

abbrev pub landlock_fd : ℕ
landlock_fd = 1818324580

-- `LANDLOCK_CREATE_RULESET_VERSION`
abbrev pub version_flag : ℕ
version_flag = 1

abbrev pub audit_placeholder : ℕ
audit_placeholder = 1635083380

-- `PR_SET_DUMPABLE`
abbrev pub pr_set_dumpable : ℕ
pr_set_dumpable = 4

-- What `syscall` writes for get_robust_list, a word of 64 bits at each of the addresses, in this
-- order; `head` and `node` are the addresses of its static structures, and `head_ptr` and `sizep` the
-- pointers `a1` and `a2`. The list head proper stands 32 bytes into its structure.
unfoldable pub robust_list : ℕ → ℕ → ℕ → ℕ → List (ℕ × ℕ)
robust_list head node head_ptr sizep =
    (head + 32, node + 8)
    ∷ (head + 40, 2 ^ 64 - 32)
    ∷ (head + 48, 0)
    ∷ (node, head + 32)
    ∷ (node + 8, head + 32)
    ∷ (head_ptr, head + 32)
    ∷ (sizep, 24)
    ∷ []

-- The memory after some writes.
unfoldable pub write_words : List (ℕ × ℕ) → (ℕ → ℕ) → ℕ → ℕ
write_words [] mem = mem
write_words (w ∷ ws) mem = write_words ws (λ a. if a == w.0 then w.1 else mem a)

module _ (K : Kernel) where
  -- `syscall`, but for what it writes for get_robust_list, which is `robust_list`.
  unfoldable pub syscall : ℕ → ℕ → ℕ → ℕ → ℕ → ℕ → ℕ → M K.State ℕ
  syscall num a0 a1 a2 a3 a4 a5 =
      if num == nr_keyctl
      then throw Errno.enosys
      else if num == nr_landlock_create_ruleset
      then (if a3 == version_flag then return 3 else return landlock_fd)
      else if num == nr_landlock_add_rule || num == nr_landlock_restrict_self
      then return 0
      else if num == nr_get_robust_list
      then return 0
      else host K Op.syscall []
          (word num ∷ word a0 ∷ word a1 ∷ word a2 ∷ word a3 ∷ word a4 ∷ word a5 ∷ [])

  unfoldable pub audit_open : M K.State ℕ
  audit_open = return audit_placeholder

  unfoldable pub audit_log_acct_message : ℕ → ℕ → List Text → ℕ → ℕ → M K.State ℕ
  audit_log_acct_message audit_fd kind texts id result = return 1

  unfoldable pub audit_log_user_command : ℕ → ℕ → List Text → ℕ → M K.State ℕ
  audit_log_user_command audit_fd kind texts result = return 1

  unfoldable pub fcntl : ℕ → ℕ → ℕ → M K.State ℕ
  fcntl fd op arg =
      if fd == audit_placeholder
      then return 0
      else host K Op.fcntl [] (word fd ∷ word op ∷ word arg ∷ [])

  unfoldable pub prctl : ℕ → ℕ → ℕ → ℕ → ℕ → M K.State ℕ
  prctl op x0 x1 x2 x3 =
      if op == pr_set_dumpable
      then return 0
      else host K Op.prctl [] (word op ∷ word x0 ∷ word x1 ∷ word x2 ∷ word x3 ∷ [])

  unfoldable pub initgroups : Text → ℕ → M K.State ℕ
  initgroups user group = return 0

  unfoldable pub setgroups : ℕ → List ℕ → M K.State ℕ
  setgroups size list = return 0
