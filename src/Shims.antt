-- ===== src/Shims.antt =====
-- Calls that are answered without the host: src/sigsys.c, src/syscall.c, src/audit.c, src/prctl.c
-- and src/setgroups.c.
pub mod Sigsys
pub mod Syscall
pub mod Laws
pub mod RobustLaws
