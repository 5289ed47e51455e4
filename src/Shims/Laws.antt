-- ===== src/Shims/Laws.antt =====
-- What the handler of blocked system calls and the faked calls promise.
use hxroot.Shims.Sigsys.{
  sigsys_handler, OldAction, nr_faccessat2, emulate, Regs, sys_seccomp, dropped, neg_enosys,
}
use hxroot.Shims.Syscall.{nr_landlock_create_ruleset, landlock_fd, syscall, version_flag}
use hxroot.Sys.{Kernel, ok}
use hxroot.Base.{ℕ, ◌≡◌, ◌≢◌, ◌↔◌, ◌⊎◌, inl, inr, false, arith, ◌==◌, Bool-cases}

unhandled :
    (old : OldAction) (si_code : ℕ) (r : Regs)
    → si_code ≢ sys_seccomp
    → (sigsys_handler old si_code r).0 ≡ dropped
    → (old.handler ≡ 0) ⊎ ((old.siginfo ≡ false) × (old.handler ≡ 1))
unfolding sigsys_handler
unhandled old si_code r ne e = elim (Bool-cases (old.handler == 0)) [
  | inl z ↦ inl (ground arith)
  | inr nz ↦ inr (ground arith)
]

-- The rewritten call is not caught again by the case that rewrote it.
pub emulate_twice : (r : Regs) → r.x8 ≡ nr_faccessat2 → (emulate (emulate r)).x0 ≡ neg_enosys
unfolding emulate
emulate_twice r e = ground arith

-- A signal that seccomp did not send changes no register, and reaches the old handler if and only
-- if there is one to call.
pub sigsys_handler_other :
    (old : OldAction) (si_code : ℕ) (r : Regs)
    → si_code ≢ sys_seccomp
    → ((sigsys_handler old si_code r).1 ≡ r)
      × (((sigsys_handler old si_code r).0 ≡ dropped)
          ↔ ((old.handler ≡ 0) ⊎ ((old.siginfo ≡ false) × (old.handler ≡ 1))))
unfolding sigsys_handler
sigsys_handler_other old si_code r ne =
    (ground arith, (λ e. unhandled old si_code r ne e, λ e. ground arith))

-- The flags of landlock_create_ruleset are its third argument; `syscall` looks at the fourth. With
-- anything but 1 there, a query for the version is answered with the descriptor instead.
pub syscall_landlock_version :
    (K : Kernel) (a0 a1 a3 a4 a5 : ℕ) (s : K.State)
    → a3 ≢ version_flag
    → syscall K nr_landlock_create_ruleset a0 a1 version_flag a3 a4 a5 s ≡ (ok landlock_fd, s)
unfolding syscall
syscall_landlock_version K a0 a1 a3 a4 a5 s ne = ground arith
