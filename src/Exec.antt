-- ===== src/Exec.antt =====
-- How a program is started: src/exec.c, src/elfutil.c, src/ldlib.c, src/posix_spawn.c and
-- src/fixup_argv.c.
pub mod Shebang
pub mod Env
pub mod Ldlib
pub mod Elf
pub mod Loader
pub mod Run
pub mod Spawn
pub mod Fixup
pub mod EnvLaws
pub mod ProotLaws
pub mod HandedEnv
pub mod LdlibLaws
pub mod ShebangLaws
pub mod SearchLaws
pub mod RunLaws
pub mod ElfLaws
