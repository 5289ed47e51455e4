-- ===== src/Lib.antt =====
-- hxroot: a fake chroot. The program is a library that is preloaded into a process and wraps
-- functions of libc: it moves the guest's absolute paths below a root directory, turns hard links
-- into symbolic links with a count file, lets the process look like root to itself, reads users and
-- groups from the guest's files, and replaces System V semaphores and blocked system calls.
--
-- The host is unknown. A wrapper finds the function it wraps by `dlsym(RTLD_NEXT, …)`; here it is an
-- operation of a `Kernel`, a parameter of every wrapper (`Sys`). A call names the function, its
-- paths and its other arguments, and gives a value or -1 with `errno`. Wrappers are functions in a
-- state and error monad over that kernel. `Sys.Log` keeps a log of the calls, newest first, so that
-- what a wrapper did, and in which order, can be read off. Descriptors, pointers and flags are bit
-- patterns of 32 or 64 bits; texts are lists of bytes without their final null byte.
--
-- The parts and their files:
--   * `Config`: the settings of src/hxroot.c that the wrappers read (HxRoot, HxBinds, HxL2s, HxUid,
--     HxGid, HxExe, HxLinker, HxProot), and in `Config.Init` HxDoInit, which fills them.
--   * `Paths`: HxShouldExpand, HxExpandedLen, HxExpandPath and HxUnexpandPath of src/util.c. All
--     the other parts go through it. `Paths.Memory` has HxUnexpandPath as it changes its buffer, and
--     HxCountArgv.
--   * `Sys.Bracket`: HxFlock, HxAutoCloseFd and HxAutoUnlock of src/util.c, which run when a block
--     is left; `Sys.Discipline` has what follows for any block under them.
--   * `Wrap`: the 39 wrappers that rewrite paths and hand on the rest, from src/access.c, attr.c,
--     chmod.c, getcwd.c (chdir), link.c (symlink, symlinkat), mkdir.c, mkfifo.c, open.c (creat,
--     freopen), opendir.c, scandir.c, setmntent.c, statvfs.c, unlink.c (rmdir), utime.c and xattr.c.
--     `Wrap.Request` is a type of calls, and `Wrap.Dispatch` makes each by its wrapper.
--   * `Files`: src/readlink.c, realpath.c, getcwd.c, chroot.c, stat.c, open.c, mktemp.c, glob.c,
--     wordexp.c, dlopen.c and socket.c. `open` asks `stat`, and `stat` opens count files with `open`;
--     `Files.Recursion` ties the two together.
--   * `Links`: src/link.c (count files, hidden names, link, linkat), unlink.c and rename.c.
--     `Links.Counter` and `Links.Removal` have a host that keeps count files, as interfaces.
--   * `Users`: src/passwd.c, group.c and shadow.c, over the reads of one file.
--   * `Ids`: src/getuid.c, setuid.c and chown.c.
--   * `Sem`: src/sysvsem.c, with `Sem.Sets` for the sets and semctl, `Sem.Table` and `Sem.Get` for
--     the table of sets and semget, `Sem.Op` for semtimedop, `Sem.Futex` for the mutex and its
--     threads, `Sem.Wake` for the same threads with the sleeps and wake-ups of futex_wait and
--     futex_wake as futex(2) describes them, and `Sem.Cond` for CondWaitShared and
--     CondSignalAllShared over that mutex. `Sem.Atomic` is what semop(2) says of an array of
--     operations. In `Sem.Futex` and `Sem.Cond` a wait may end at any time; only `Sem.Wake` says when.
--   * `Shims`: src/sigsys.c, syscall.c, audit.c, prctl.c and setgroups.c.
--   * `Exec`: src/exec.c, with `Exec.Shebang` for scripts, `Exec.Env` for the environment that is
--     handed on, `Exec.Loader` for the command lines of the loader and of proot, `Exec.Run` for
--     execve and its variants; `Exec.Elf` is src/elfutil.c, `Exec.Ldlib` src/ldlib.c, `Exec.Spawn`
--     src/posix_spawn.c and `Exec.Fixup` src/fixup_argv.c. A host's execve that gives a value has
--     replaced the program: nothing follows. What stands in memory behind an array that was left
--     without its null pointer is a parameter, `junk`.
--   * `Older`: what differs in src/src, an older copy of the same files: HxHandleElf64 of
--     src/src/exec.c and HxDoInit of src/src/hxroot.c. The other files there are those of src to the
--     byte, but for the headers of socket.c.
--   * `Base`: lists, texts, bits and integers over the native numbers; `Tests`: examples.
--
-- Fuel: the recursion of `open` through `stat` is bounded by a number `n`, how often one call of
-- `open` may lead to another; at 0 the outcome is `exhausted`. The recursion goes on only while the
-- host refuses one count file after another with EACCES to a faked root that converts links, each
-- being a symbolic link itself; how long such a chain is, is up to the host, so `n` stays a
-- parameter of every function that opens a file. `execve` of a script calls itself for the
-- interpreter; its own `fuel` bounds how often, and at 0 the outcome is `exhausted`; an answer that is
-- reached does not depend on it. The wait loop of semtimedop takes the list of its waits, and says
-- `waiting` when they are over.
--
-- Not modelled: failures of malloc and asprintf, and the release of memory; debug output; HxInit,
-- which calls HxDoInit once; program_invocation_name. A condition variable's word is a step of its
-- own for each access (`Sem.Cond`), while semtimedop takes its waits as a list, each with what
-- others make of the set meanwhile. atoi is a parameter of the older HxDoInit. Values of
-- semaphores are integers, as the overflow of a C int has no defined result; the count of links and
-- the digits of a number in the environment wrap around there instead. The launcher, the scripts and the build files
-- are no C.
pub mod Base
pub mod Config
pub mod Paths
pub mod Sys
pub mod Wrap
pub mod Files
pub mod Links
pub mod Users
pub mod Sem
pub mod Ids
pub mod Shims
pub mod Exec
pub mod Older
pub mod Tests
