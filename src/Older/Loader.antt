-- ===== src/Older/Loader.antt =====
-- `HxHandleElf64` of src/src/exec.c.
use hxroot.Exec.Loader.{library_path, loader_argv, real_execve}
use hxroot.Exec.Elf.{ElfInfo}
use hxroot.Exec.Env.{preserve, Process}
use hxroot.Paths.{expand_path}
use hxroot.Sys.{M, abort, Kernel}
use hxroot.Config.{Hx}
use hxroot.Base.{ℕ, none, some, List, [], ◌∷◌, Text, bytes}

-- `PRESERVE_ENV`
abbrev pub old_preserve_env : List Text
old_preserve_env =
    bytes "LD_PRELOAD"
    ∷ bytes "LD_LIBRARY_PATH"
    ∷ bytes "HxLinker"
    ∷ bytes "HxProot"
    ∷ bytes "HxRoot"
    ∷ bytes "HxBinds"
    ∷ bytes "HxL2s"
    ∷ bytes "HxUid"
    ∷ bytes "HxGid"
    ∷ bytes "HxDebug"
    ∷ []

-- The loader.
unfoldable pub old_choose_loader : Hx → Text → Text
old_choose_loader h interp = elim h.linker [ some l ↦ l | none ↦ expand_path h interp ]

module _ (K : Kernel) (h : Hx) where
  -- `HxHandleElf64`, with `interp` the file's interpreter.
  unfoldable pub old_handle_elf64 :
      Process → Text → List Text → List Text → ElfInfo → Text → M K.State ℕ
  unfolding old_choose_loader library_path preserve real_execve loader_argv
  old_handle_elf64 p new_path argv envp info interp =
      let loader = old_choose_loader h interp in
      elim (library_path h info envp (preserve h p old_preserve_env envp)) [
        | none ↦ abort
        | some new_envp ↦ real_execve K loader (loader_argv loader new_path argv) new_envp
      ]
