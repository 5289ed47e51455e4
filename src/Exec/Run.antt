-- ===== src/Exec/Run.antt =====
-- `execve` and its variants of src/exec.c.
use hxroot.Sys.Bracket.{auto_close}
use hxroot.Config.{Hx}
use hxroot.Base.{
  ℕ, zero, suc, ◌+◌, ◌-◌, min, Bool, true, false, ◌&&◌, ◌||◌, none, some, List, [], ◌∷◌, ◌++◌, ltb,
  leb, ◌==◌, if◌then◌else◌, length, Text, bytes,
}
use hxroot.Exec.Elf.{parse_elf, read_ehdr}
use hxroot.Exec.Env.{Process, get_env}
use hxroot.Exec.Shebang.{
  is_shebang, is_elf, is_elf32, is_elf64, first_line, parse_shebang, script_argv,
}
use hxroot.Base.Words.{split, contains}
use hxroot.Paths.{expand_path}
use hxroot.Sys.{
  Op, Shape, call, Kernel, word, M, ◌>>=◌, attempt, abort, return, throw, out_of_fuel, Errno,
}
use hxroot.Files.Recursion.{open_file}
use hxroot.Exec.Loader.{handle_elf64, handle_proot, path_max}

-- `O_RDONLY|O_CLOEXEC`
abbrev pub o_cloexec : ℕ
o_cloexec = 0o2000000

abbrev pub default_path : Text
default_path = bytes "/usr/local/bin:/bin:/usr/bin"

abbrev pub name_max : ℕ
name_max = 255

-- `new_argv` of `HxShellExecute`.
abbrev pub shell_argv : Text → List Text → List Text
shell_argv file [] = bytes "/bin/sh" ∷ file ∷ []
shell_argv file (a ∷ argv) = bytes "/bin/sh" ∷ a ∷ argv

-- The path that is tried for a directory of `PATH`; an empty one is the current directory.
abbrev pub in_dir : Text → Text → Text
in_dir [] file = file
in_dir (c ∷ dir) file = (c ∷ dir) ++ (b'/' ∷ file)

-- `path`, and `l`: directories that are not shorter are skipped.
abbrev pub search_path : List Text → Text
search_path env = elim (get_env env (bytes "PATH")) [ none ↦ default_path | some s ↦ s ]

abbrev pub dir_limit : Text → ℕ
dir_limit path = min (length path) (path_max - 1) + 1

-- What the loop of `execvpe` does after a failure.
pub data Next : Type 0 where
  by_shell : Next
  go_on : Bool → Next  -- whether the failure was `EACCES`
  give_up : Next

unfoldable pub next_of : Errno → Next
next_of Errno.enoexec = by_shell
next_of Errno.eacces = go_on true
next_of Errno.enoent = go_on false
next_of Errno.enotdir = go_on false
next_of _ = give_up

-- Behind the last directory: the last `errno`, or `EACCES` if it was met.
abbrev pub last_error : Bool → Errno → Errno
last_error seen_eacces e = if seen_eacces then Errno.eacces else e

-- `run` is `execve`: where it gives a value the program has been replaced.
module _ {S : Type 0} (run : Text → List Text → List Text → M S ℕ) where
  -- `HxShellExecute`
  unfoldable pub shell_execute : Text → List Text → List Text → M S ℕ
  shell_execute file argv envp = run (bytes "/bin/sh") (shell_argv file argv) envp

  -- A failed try of `file`, with `rest` for the directories behind.
  unfoldable pub after_failure :
      Text → List Text → List Text → (Errno → Bool → M S ℕ) → Errno → M S ℕ
  unfolding shell_execute next_of
  after_failure file argv envp rest e = elim (next_of e) [
    | by_shell ↦ shell_execute file argv envp
    | go_on is_denied ↦ rest e is_denied
    | give_up ↦ throw e
  ]

  -- The loop of `execvpe` over the directories, with `errno` and `seen_eacces`.
  unfoldable pub search_dirs : ℕ → Text → List Text → List Text → List Text → Errno → Bool → M S ℕ
  unfolding after_failure
  search_dirs l file argv envp [] e seen = throw (last_error seen e)
  search_dirs l file argv envp (dir ∷ dirs) e seen =
      let rest = search_dirs l file argv envp dirs in
      if leb l (length dir)
      then rest e seen
      else attempt (run (in_dir dir file) argv envp) return
          (after_failure (in_dir dir file) argv envp (λ e' is_denied. rest e' (seen || is_denied)))

  -- From the look at `PATH` on, with `errno` as it then is.
  unfoldable pub search_file : Text → Text → List Text → List Text → Errno → M S ℕ
  unfolding search_dirs split
  search_file path file argv envp e =
      if ltb name_max (length file)
      then throw Errno.enametoolong
      else search_dirs (dir_limit path) file argv envp (split (λ c. c == b':') path) e false

  -- `execvpe`. A file with a slash is searched in `PATH` too after its own try has failed.
  unfoldable pub execvpe_with : Text → Text → List Text → List Text → M S ℕ
  unfolding search_file shell_execute next_of contains
  execvpe_with path [] argv envp = throw Errno.enoent
  execvpe_with path (c ∷ file) argv envp =
      if contains (c ∷ file) (bytes "/")
      then attempt (run (c ∷ file) argv envp) return (λ e. elim (next_of e) [
        | by_shell ↦ shell_execute (c ∷ file) argv envp
        | go_on is_denied ↦ search_file path (c ∷ file) argv envp e
        | give_up ↦ search_file path (c ∷ file) argv envp e
      ])
      else search_file path (c ∷ file) argv envp Errno.enoent

-- `n` bounds the recursion of `open`, and `fuel` how often a script leads to another.
module _ (K : Kernel) (h : Hx) (p : Process) (junk : List Text) (n : ℕ) where
  -- What is done with the bytes that were read; `again` is `execve`.
  unfoldable pub dispatch :
      (Text → List Text → List Text → M K.State ℕ)
      → ℕ
      → Text
      → Text
      → List Text
      → List Text
      → M K.State ℕ
  unfolding is_shebang is_elf is_elf32 is_elf64 first_line parse_shebang script_argv parse_elf
      read_ehdr handle_elf64 handle_proot
  dispatch again fd buf path argv envp =
      if is_shebang buf
      then (let script = parse_shebang (first_line buf) in
          again script.interp (script_argv junk script path argv) envp)
      else if is_elf buf && is_elf64 buf
      then (parse_elf K fd (read_ehdr buf) >>= λ out. elim out.interp [
        | some interp ↦ handle_elf64 K h p (expand_path h path) argv envp out interp
        | none ↦ handle_proot K h junk path argv envp
      ])
      else if is_elf buf && is_elf32 buf
      then handle_proot K h junk path argv envp
      else throw Errno.enoexec

  -- `execve` with `again` for its own calls. The descriptor is closed on failure, which is the only
  -- way to come back.
  unfoldable pub execve_with :
      (Text → List Text → List Text → M K.State ℕ) → Text → List Text → List Text → M K.State ℕ
  unfolding dispatch auto_close
  execve_with again path argv envp = open_file K h n path o_cloexec 0 >>= λ fd.
      attempt
        (call K Shape.text (record { op = Op.read; paths = []; args = word fd ∷ word 4095 ∷ [] })
          >>= λ buf. dispatch again fd buf path argv envp)
        return (λ e. attempt (auto_close K fd) (λ _. throw e) throw)

  unfoldable pub execve : ℕ → Text → List Text → List Text → M K.State ℕ
  unfolding execve_with
  execve zero path argv envp = out_of_fuel
  execve (suc fuel) path argv envp = execve_with (execve fuel) path argv envp

  module _ (fuel : ℕ) where
    unfoldable pub execv : Text → List Text → M K.State ℕ
    unfolding execve
    execv path argv = execve fuel path argv p.environ

    unfoldable pub execvpe : Text → List Text → List Text → M K.State ℕ
    unfolding execve execvpe_with get_env
    execvpe file argv envp = execvpe_with (execve fuel) (search_path p.environ) file argv envp

    unfoldable pub execvp : Text → List Text → M K.State ℕ
    unfolding execvpe
    execvp file argv = execvpe file argv p.environ

    -- `execl`, `execle` and `execlp`, with the arguments behind `arg` up to the null pointer.
    unfoldable pub execl : Text → Text → List Text → M K.State ℕ
    unfolding execve
    execl path arg args = execve fuel path (arg ∷ args) p.environ

    unfoldable pub execle : Text → Text → List Text → List Text → M K.State ℕ
    unfolding execve
    execle path arg args envp = execve fuel path (arg ∷ args) envp

    unfoldable pub execlp : Text → Text → List Text → M K.State ℕ
    unfolding execvpe
    execlp file arg args = execvpe file (arg ∷ args) p.environ

  -- `execveat`
  unfoldable pub execveat : ℕ → Text → List Text → List Text → ℕ → M K.State ℕ
  execveat dirfd path argv envp flags = abort
