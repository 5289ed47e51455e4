-- ===== src/Shims/Sigsys.antt =====
-- The handler of src/sigsys.c for system calls that seccomp blocks.
use hxroot.Base.{ℕ, ◌+◌, ◌-◌, ◌%◌, ◌^◌, Bool, ◌||◌, ◌==◌, if◌then◌else◌, List, []}

-- The registers that the handler reads or writes, 64 bits each, and `rest` for the others.
pub record Regs : Type 0 where
  pub x0 : ℕ
  pub x8 : ℕ
  pub pc : ℕ
  pub rest : ℕ

-- `old_sa`: its `SA_SIGINFO` flag and the address of its handler; 0 is `SIG_DFL` and 1 `SIG_IGN`.
pub record OldAction : Type 0 where
  pub siginfo : Bool
  pub handler : ℕ

-- What becomes of the signal: it is dropped, handed to the old handler in one of its two forms, or
-- handled here.
pub data Fate : Type 0 where
  dropped : Fate
  handed_info : ℕ → Fate
  handed_plain : ℕ → Fate
  handled : Fate

abbrev pub sys_seccomp : ℕ
sys_seccomp = 1

-- -38, `-ENOSYS`, as 64 bits
abbrev pub neg_enosys : ℕ
neg_enosys = 2 ^ 64 - 38

-- The cases of the switch that return 0, by number: set_robust_list, setgid, setuid, setfsuid,
-- setfsgid, setresgid and setresuid.
unfoldable pub returns_zero : ℕ → Bool
returns_zero nr =
    nr == 274 || nr == 144 || nr == 146 || nr == 150 || nr == 151 || nr == 145 || nr == 143

abbrev pub nr_faccessat2 : ℕ
nr_faccessat2 = 439

abbrev pub nr_faccessat : ℕ
nr_faccessat = 48

-- `*pc += 4`
abbrev pub skip_svc : ℕ → ℕ
skip_svc pc = (pc + 4) % 2 ^ 64

-- The switch. The cases that return `-ENOSYS` do what the default does.
unfoldable pub emulate : Regs → Regs
unfolding returns_zero
emulate r =
    if returns_zero r.x8
    then record r { x0 = 0; pc = skip_svc r.pc }
    else if r.x8 == nr_faccessat2
    then record r { x8 = nr_faccessat }
    else record r { x0 = neg_enosys; pc = skip_svc r.pc }

-- `sigsys_handler`
unfoldable pub sigsys_handler : OldAction → ℕ → Regs → Fate × Regs
unfolding emulate
sigsys_handler old si_code r =
    if si_code == sys_seccomp
    then (handled, emulate r)
    else if old.siginfo
    then (if old.handler == 0 then (dropped, r) else (handed_info old.handler, r))
    else if old.handler == 0 || old.handler == 1
    then (dropped, r)
    else (handed_plain old.handler, r)

-- `struct sigaction`, with the handler by its address: its flags and its mask are 0 and empty but for
-- what stands here.
pub record SigAction : Type 0 where
  pub sa_sigaction : ℕ
  pub sa_flags : ℕ
  pub sa_mask : List ℕ

-- `SA_SIGINFO`
abbrev pub sa_siginfo : ℕ
sa_siginfo = 4

-- The action that `sigsys_shim_init` installs for `SIGSYS`, with `handler` the address of
-- `sigsys_handler`.
unfoldable pub sigsys_action : ℕ → SigAction
sigsys_action handler = record { sa_sigaction = handler; sa_flags = sa_siginfo; sa_mask = [] }
