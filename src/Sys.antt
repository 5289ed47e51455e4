-- ===== src/Sys.antt =====
-- The host below the wrappers: the functions that `dlsym(RTLD_NEXT, …)` finds, behind one operation
-- `real` of an unknown kernel, and the state and error monad in which the wrappers are written.
pub mod Bracket
pub mod Log
pub mod Discipline
pub mod Extends
use hxroot.Base.{ℕ, Bool, true, false, Option, List, Text}

pub data Errno : Type 0 where
  enoent eacces eexist einval enodata epipe e2big efault enosys efbig eagain enoexec enotdir : Errno
  enametoolong etimedout eintr : Errno
  errno : ℕ → Errno

abbrev pub is_enoent : Errno → Bool
is_enoent Errno.enoent = true
is_enoent _ = false

abbrev pub is_eacces : Errno → Bool
is_eacces Errno.eacces = true
is_eacces _ = false

abbrev pub is_einval : Errno → Bool
is_einval Errno.einval = true
is_einval _ = false

-- What a host function gives: a value, or -1 (or a null pointer) with `errno` set.
pub data Result (A : Type 0) : Type 0 where
  gives : A → Result A
  errs : Errno → Result A

-- A wrapper that returns a value, or -1 (or a null pointer) with `errno` set, calls `abort` or
-- accesses memory outside an array, or does not come back within the fuel that the model gives its recursion.
pub data Outcome (A : Type 0) : Type 0 where
  ok : A → Outcome A
  fail : Errno → Outcome A
  aborted : Outcome A
  exhausted : Outcome A

abbrev pub M : Type 0 → Type 0 → Type 0
M S A = S → Outcome A × S

module _ {S : Type 0} where
  abbrev pub return : {A : Type 0} → A → M S A
  return a s = (Outcome.ok a, s)

  abbrev pub throw : {A : Type 0} → Errno → M S A
  throw e s = (Outcome.fail e, s)

  abbrev pub abort : {A : Type 0} → M S A
  abort s = (Outcome.aborted, s)

  abbrev pub out_of_fuel : {A : Type 0} → M S A
  out_of_fuel s = (Outcome.exhausted, s)

  -- What follows a call: on success, on -1 with its `errno`, and on an abort nothing.
  abbrev pub resume : {A B : Type 0} → (A → M S B) → (Errno → M S B) → Outcome A × S → Outcome B × S
  resume f g (Outcome.ok a, s) = f a s
  resume f g (Outcome.fail e, s) = g e s
  resume f g (Outcome.aborted, s) = (Outcome.aborted, s)
  resume f g (Outcome.exhausted, s) = (Outcome.exhausted, s)

  abbrev pub attempt : {A B : Type 0} → M S A → (A → M S B) → (Errno → M S B) → M S B
  attempt m f g s = resume f g (m s)

  -- `if(… == -1) return -1;`
  infixl 5 ◌>>=◌ ◌>>◌
  abbrev pub ◌>>=◌ : {A B : Type 0} → M S A → (A → M S B) → M S B
  ◌>>=◌ m f = attempt m f throw

  abbrev pub ◌>>◌ : {A B : Type 0} → M S A → M S B → M S B
  ◌>>◌ m k = m >>= λ _. k

-- `struct stat`: the fields that the wrappers touch, and `rest` for the others.
pub record Stat : Type 0 where
  pub st_mode : ℕ
  pub st_nlink : ℕ
  pub st_uid : ℕ
  pub st_gid : ℕ
  pub st_size : ℕ
  pub rest : ℕ

-- `struct statx`, likewise.
pub record Statx : Type 0 where
  pub stx_mask : ℕ
  pub stx_mode : ℕ
  pub stx_nlink : ℕ
  pub stx_uid : ℕ
  pub stx_gid : ℕ
  pub stx_mnt_id : ℕ
  pub rest : ℕ

-- A control message of a socket: `cmsg_level`, `cmsg_type` and its data.
pub record Control : Type 0 where
  pub level : ℕ
  pub cmsg_type : ℕ
  pub contents : Text

-- What a host function gives back besides -1: an integer or pointer, the text or the texts that it
-- writes to a buffer, a `struct stat` or `statx`, three ids, or an integer with a text, with
-- control messages, or with a pointer that is null or to a text.
pub data Shape : Type 0 where
  number text texts stat statx ids named controls info : Shape

abbrev pub Reply : Shape → Type 0
Reply Shape.number = ℕ
Reply Shape.text = Text
Reply Shape.texts = List Text
Reply Shape.stat = Stat
Reply Shape.statx = Statx
Reply Shape.ids = ℕ × ℕ × ℕ
Reply Shape.named = ℕ × Text
Reply Shape.controls = ℕ × List Control
Reply Shape.info = ℕ × Option Text

-- An argument that is no path: an integer, a descriptor or a pointer by its bit pattern, or a text.
pub data Arg : Type 0 where
  word : ℕ → Arg
  str : Text → Arg
  decimal : ℕ → Arg  -- the text that `%d` prints of an int, by its bit pattern
  strs : List Text → Arg  -- an array of texts with a null pointer behind it
  msgs : List Control → Arg  -- the control messages of a `struct msghdr`

-- The host functions, by name.
pub data Op : Type 0 where
  access faccessat euidaccess chmod lchmod fchmodat mkdir mkdirat mkfifo mkfifoat utime : Op
  utimes lutimes utimensat chdir rmdir symlink symlinkat opendir scandir scandirat : Op
  setmntent statfs statvfs creat freopen attr_get attr_set attr_remove attr_list : Op
  attr_multi listxattr llistxattr getxattr lgetxattr setxattr lsetxattr removexattr : Op
  lremovexattr open_file openat fopen dlopen dlmopen dladdr dladdr1 chown fchown lchown : Op
  fchownat getuid geteuid getgid getegid getresuid getresgid link linkat rename renameat : Op
  renameat2 unlink unlinkat readlink readlinkat readlink_chk readlinkat_chk realpath : Op
  realpath_chk getcwd stat fstat lstat fstatat statx mkstemp mkostemp mkstemps mkdtemp : Op
  glob wordexp flock read write lseek close getrandom dup2 syscall fcntl prctl bind : Op
  connect setenv execve pread newfstatat fork recvmsg sendmsg getsockopt shm_open ftruncate mmap :
      Op

-- One call of a host function.
pub record Call : Type 0 where
  pub op : Op
  pub paths : List Text
  pub args : List Arg

pub record Kernel : Type 1 where
  pub State : Type 0
  pub real : (r : Shape) → Call → State → Result (Reply r) × State

abbrev pub lift : {A : Type 0} {S : Type 0} → Result A × S → Outcome A × S
lift (Result.gives a, s) = (Outcome.ok a, s)
lift (Result.errs e, s) = (Outcome.fail e, s)

-- A call of a host function.
unfoldable pub call : (K : Kernel) (r : Shape) → Call → M K.State (Reply r)
call K r c s = lift (K.real r c s)

-- A host function called for its integer result.
abbrev pub host : (K : Kernel) → Op → List Text → List Arg → M K.State ℕ
host K f ps xs = call K Shape.number (record { op = f; paths = ps; args = xs })
