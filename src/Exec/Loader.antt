-- ===== src/Exec/Loader.antt =====
-- `HxHandleElf64` and `HxHandleProot` of src/exec.c: a program is started through a loader that is
-- named on the command line, or through proot.
use hxroot.Exec.Ldlib.{set_text, Ldlib, append}
use hxroot.Files.Names.{getcwd}
use hxroot.Ids.Get.{getgid, getuid}
use hxroot.Paths.{expanded_len, is_none, expand_path}
use hxroot.Sys.{word, ◌>>=◌, Errno, strs, Op, attempt, Kernel, abort, M, return, throw, host}
use hxroot.Config.{Hx}
use hxroot.Base.{
  ℕ, suc, Bool, false, ◌&&◌, ◌||◌, Option, none, some, List, [], ◌∷◌, ◌++◌, ◌==◌, if◌then◌else◌,
  get_elem?, take, drop, Text, bytes,
}
use hxroot.Exec.Elf.{ElfInfo}
use hxroot.Exec.Env.{Process, find_env, preserve_env, preserve, drop_preload, proot_env}
use hxroot.Base.Words.{tokens, contains, decimal_text}

-- `append`, for every entry of a search path that is rewritten. `none` writes outside the buffer.
unfoldable pub append_all : Hx → List Text → Ldlib → Option Ldlib
append_all h [] l = some l
append_all h (tok ∷ toks) l =
    let skipped = append_all h toks l in
    if expanded_len h tok == 0
    then skipped
    else (elim (append (expand_path h tok) l) [ none ↦ none | some b ↦ append_all h toks (some b) ])

abbrev pub path_tokens : Option Text → List Text
path_tokens none = []
path_tokens (some s) = tokens (λ c. c == b':') s

abbrev pub replace_entry : ℕ → Text → List Text → List Text
replace_entry i e env = take i env ++ (e ∷ drop (suc i) env)

-- The buffer goes where the variable was, or behind the other entries.
abbrev pub put_ldlib : Option ℕ → Ldlib → List Text → List Text
put_ldlib idx none env = env
put_ldlib none (some b) env = env ++ (b.text ∷ [])
put_ldlib (some i) (some b) env = replace_entry i b.text env

-- `HxLdlib_set`, with the entry of the environment that was given, at an index into the new one.
abbrev pub start_ldlib : List Text → Option ℕ → Option Ldlib
start_ldlib envp none = some none
start_ldlib envp (some i) = elim (get_elem? envp i) [
  | none ↦ none
  | some e ↦ some (some (set_text e none))
]

-- The library path. `none` reads or writes outside an array: `envp` has no entry at an index that
-- was found among those that `preserve` added.
unfoldable pub library_path : Hx → ElfInfo → List Text → List Text → Option (List Text)
unfolding find_env set_text append_all
library_path h info envp new_envp =
    if is_none info.rpath && is_none info.runpath
    then some new_envp
    else (let idx = find_env new_envp (bytes "LD_LIBRARY_PATH") in
        elim (start_ldlib envp idx) [
          | none ↦ none
          | some l ↦ elim (append_all h (path_tokens info.rpath ++ path_tokens info.runpath) l) [
            | none ↦ none
            | some l' ↦ some (put_ldlib idx l' new_envp)
          ]
        ])

unfoldable pub is_bionic : Text → Bool
unfolding contains
is_bionic interp = contains interp (bytes "linker") || contains interp (bytes "ld-android")

-- `new_argv` for a loader.
unfoldable pub loader_argv : Text → Text → List Text → List Text
loader_argv interp new_path [] = interp ∷ new_path ∷ []
loader_argv interp new_path (a ∷ argv) = interp ∷ bytes "--argv0" ∷ a ∷ new_path ∷ argv

abbrev pub termux_loader : Text
termux_loader = bytes "/data/data/com.termux/files/usr/glibc/lib/ld-linux-aarch64.so.1"

-- `X_OK`
abbrev pub x_ok : ℕ
x_ok = 1

abbrev pub path_max : ℕ
path_max = 4096

abbrev pub bind_options : List Text → List Text
bind_options [] = []
bind_options (b ∷ bs) = bytes "-b" ∷ b ∷ bind_options bs

-- An array of strings, read up to its first null pointer.
abbrev pub up_to_null : Option Text → List Text → List Text
up_to_null none rest = []
up_to_null (some s) rest = s ∷ rest

-- The arguments behind `argv[0]` with the null pointer at their end; of an empty `argv` not even that
-- is copied, and `junk` is what stands there.
abbrev pub copied_args : List Text → List Text → List Text
copied_args junk [] = junk
copied_args junk (a ∷ argv) = argv

-- `new_argv` for proot. A null `HxRoot` ends it.
unfoldable pub proot_argv : List Text → Hx → Text → ℕ → ℕ → Text → List Text → List Text
unfolding decimal_text
proot_argv junk h cwd uid gid path argv =
    bytes "proot"
    ∷ bytes "-r"
    ∷ up_to_null h.root (
        bytes "-w"
        ∷ cwd
        ∷ (bind_options h.binds
            ++ (bytes "-i"
                ∷ (decimal_text uid ++ (b':' ∷ decimal_text gid))
                ∷ path
                ∷ copied_args junk argv)))

module _ (K : Kernel) where
  -- `execve_real`: where it gives a value the program has been replaced.
  unfoldable pub real_execve : Text → List Text → List Text → M K.State ℕ
  real_execve path argv envp = host K Op.execve (path ∷ []) (strs argv ∷ strs envp ∷ [])

  -- `access_real(path, X_OK) == 0`
  unfoldable pub executable : Text → M K.State Bool
  executable path =
      attempt (host K Op.access (path ∷ []) (word x_ok ∷ [])) (λ r. return (r == 0))
        (λ e. return false)

module _ (K : Kernel) (h : Hx) where
  -- The loader.
  unfoldable pub choose_loader : Text → M K.State Text
  unfolding executable
  choose_loader interp =
      let expanded = expand_path h interp in
      elim h.linker [
        | some l ↦ return l
        | none ↦ executable K expanded >>= λ ok.
            if ok
            then return expanded
            else (executable K interp >>= λ ok.
                if ok
                then return interp
                else (executable K termux_loader >>= λ ok.
                    return (if ok then termux_loader else expanded)))
      ]

module _ (K : Kernel) where
  -- The last step, with the environment as it is handed on.
  unfoldable pub start_program : Text → Text → List Text → List Text → M K.State ℕ
  unfolding real_execve is_bionic loader_argv drop_preload
  start_program interp new_path argv new_envp =
      if is_bionic interp
      then real_execve K new_path argv (drop_preload new_envp)
      else real_execve K interp (loader_argv interp new_path argv) new_envp

module _ (K : Kernel) (h : Hx) where
  -- `HxHandleElf64`, with `interp` the file's interpreter.
  unfoldable pub handle_elf64 :
      Process → Text → List Text → List Text → ElfInfo → Text → M K.State ℕ
  unfolding choose_loader start_program library_path preserve
  handle_elf64 p new_path argv envp info interp = choose_loader K h interp >>= λ loader.
      elim (library_path h info envp (preserve h p preserve_env envp)) [
        | none ↦ abort
        | some new_envp ↦ start_program K loader new_path argv new_envp
      ]

  -- `HxHandleProot`
  unfoldable pub handle_proot : List Text → Text → List Text → List Text → M K.State ℕ
  unfolding real_execve proot_env proot_argv getcwd getuid getgid
  handle_proot junk path argv envp = elim h.proot [
    | none ↦ throw Errno.enoent
    | some proot ↦ getcwd K h path_max >>= λ cwd. getuid K h >>= λ uid. getgid K h >>= λ gid.
        real_execve K proot (proot_argv junk h cwd uid gid path argv) (proot_env envp)
  ]
