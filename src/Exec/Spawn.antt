-- ===== src/Exec/Spawn.antt =====
-- src/posix_spawn.c: `posix_spawn` and `posix_spawnp` by `fork` and `execve`.
use hxroot.Sys.Bracket.{auto_close}
use hxroot.Sys.{◌>>=◌, Op, attempt, return, Kernel, host, abort, Errno, word, M}
use hxroot.Config.{Hx}
use hxroot.Exec.Run.{execve, execvpe}
use hxroot.Exec.Env.{Process}
use hxroot.Files.Recursion.{open_file}
use hxroot.Base.{List, Option, none, some, ℕ, [], ◌∷◌, ◌==◌, if◌then◌else◌, Text}

-- `struct __spawn_action`, with one case for the tags that the code does not know.
pub data FileAction : Type 0 where
  do_close : ℕ → FileAction
  do_dup2 : ℕ → ℕ → FileAction
  do_open : ℕ → Text → ℕ → ℕ → FileAction  -- fd, path, oflag and mode
  unsupported : FileAction

-- What becomes of a call: in the parent `*pid` is set and 0 returned, or an error number is
-- returned; the child runs the program or ends with a status.
pub data Spawned : Type 0 where
  parent : ℕ → Spawned
  refused : Errno → Spawned
  running : Spawned
  exited : ℕ → Spawned

module _ (K : Kernel) (h : Hx) (n : ℕ) where
  -- One action, with `rest` for those behind it.
  unfoldable pub process_action : FileAction → M K.State ℕ → M K.State ℕ
  unfolding auto_close open_file
  process_action (do_close fd) rest = attempt (auto_close K fd) (λ _. rest) (λ _. rest)
  process_action (do_dup2 fd newfd) rest =
      host K Op.dup2 [] (word fd ∷ word newfd ∷ []) >>= λ _. rest
  process_action (do_open fd path oflag mode) rest = open_file K h n path oflag mode >>= λ ret.
      if ret == fd
      then rest
      else (host K Op.dup2 [] (word ret ∷ word fd ∷ []) >>= λ _. auto_close K ret >>= λ _. rest)
  process_action unsupported rest = abort

  -- `HxProcessFileActions`
  unfoldable pub process_actions : List FileAction → M K.State ℕ
  unfolding process_action
  process_actions [] = return 0
  process_actions (a ∷ actions) = process_action a (process_actions actions)

  -- A null `file_actions` is read through.
  abbrev pub file_actions : Option (List FileAction) → M K.State ℕ
  file_actions none = abort
  file_actions (some actions) = process_actions actions

  -- `HxProcessSpawnAttrs`
  unfoldable pub process_attrs : M K.State ℕ
  process_attrs = return 0

  -- Both functions, with `run` the call of `execve` or `execvpe`.
  unfoldable pub spawn_with : M K.State ℕ → Option (List FileAction) → M K.State Spawned
  unfolding process_actions process_attrs
  spawn_with run actions =
      attempt (host K Op.fork [] [])
        (λ ret.
          if ret == 0
          then attempt (file_actions actions >>= λ _. process_attrs >>= λ _. run)
              (λ _. return running) (λ _. return (exited 127))
          else return (parent ret))
        (λ e. return (refused e))

module _ (K : Kernel) (h : Hx) (p : Process) (junk : List Text) (n : ℕ) (fuel : ℕ) where
  unfoldable pub posix_spawn :
      Text → Option (List FileAction) → List Text → List Text → M K.State Spawned
  unfolding spawn_with execve
  posix_spawn path actions argv envp =
      spawn_with K h n (execve K h p junk n fuel path argv envp) actions

  unfoldable pub posix_spawnp :
      Text → Option (List FileAction) → List Text → List Text → M K.State Spawned
  unfolding spawn_with execvpe
  posix_spawnp file actions argv envp =
      spawn_with K h n (execvpe K h p junk n fuel file argv envp) actions
