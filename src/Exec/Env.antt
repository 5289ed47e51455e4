-- ===== src/Exec/Env.antt =====
-- The environment of a program that is started: src/exec.c.
use hxroot.Base.Words.{decimal_text}
use hxroot.Paths.{char_at}
use hxroot.Config.{Hx}
use hxroot.Base.{
  ℕ, suc, Bool, ◌&&◌, ◌||◌, Option, none, some, List, [], ◌∷◌, ◌++◌, ◌==◌, if◌then◌else◌,
  map_option, length, Text, bytes, text_eq, starts_with, ◌+◌, drop,
}

-- The environments that `execve` sees besides the one it is given: `environ`, and its copy
-- `HxEnviron` that was made at the start.
pub record Process : Type 0 where
  pub environ : List Text
  pub backup : List Text

-- The variable `name` is set by this entry.
unfoldable pub defines : Text → Text → Bool
defines name e = starts_with e name && char_at e (length name) == b'='

-- `HxFindEnv`: the first such entry; `none` is -1.
unfoldable pub find_env : List Text → Text → Option ℕ
unfolding defines
find_env [] name = none
find_env (e ∷ env) name = if defines name e then some 0 else map_option suc (find_env env name)

-- The entry itself.
unfoldable pub entry_of : List Text → Text → Option Text
unfolding defines
entry_of [] name = none
entry_of (e ∷ env) name = if defines name e then some e else entry_of env name

-- `getenv`
unfoldable pub get_env : List Text → Text → Option Text
unfolding entry_of
get_env env name = map_option (λ e. drop (length name + 1) e) (entry_of env name)

-- `PRESERVE_ENV`
abbrev pub preserve_env : List Text
preserve_env =
    bytes "LD_PRELOAD"
    ∷ bytes "LD_LIBRARY_PATH"
    ∷ bytes "HxLinker"
    ∷ bytes "HxProot"
    ∷ bytes "HxRoot"
    ∷ bytes "HxBinds"
    ∷ bytes "HxL2s"
    ∷ bytes "HxUid"
    ∷ bytes "HxGid"
    ∷ bytes "HxDebug"
    ∷ bytes "FAKECHROOT"
    ∷ bytes "FAKECHROOT_BASE"
    ∷ bytes "FAKECHROOT_EXCLUDE_PATH"
    ∷ bytes "FAKECHROOT_CMD_SUBST"
    ∷ bytes "FAKECHROOT_DEBUG"
    ∷ []

-- What is appended for a variable that the given environment does not set.
unfoldable pub supply : Hx → Process → Text → Option Text
unfolding entry_of decimal_text
supply h p name =
    if text_eq (bytes "HxUid") name
    then some (bytes "HxUid=" ++ decimal_text h.uid)
    else if text_eq (bytes "HxGid") name
    then some (bytes "HxGid=" ++ decimal_text h.gid)
    else (elim (entry_of p.environ name) [ some e ↦ some e | none ↦ entry_of p.backup name ])

abbrev pub append_entry : List Text → Option Text → List Text
append_entry env none = env
append_entry env (some e) = env ++ (e ∷ [])

-- One round of the loop over `PRESERVE_ENV`.
unfoldable pub preserve_one : Hx → Process → List Text → Text → List Text
unfolding find_env supply
preserve_one h p env name = elim (find_env env name) [
  | some i ↦ env
  | none ↦ append_entry env (supply h p name)
]

-- The loop.
unfoldable pub preserve : Hx → Process → List Text → List Text → List Text
unfolding preserve_one
preserve h p [] env = env
preserve h p (name ∷ names) env = preserve h p names (preserve_one h p env name)

-- The first entry that sets `LD_PRELOAD` is taken out.
unfoldable pub drop_preload : List Text → List Text
drop_preload [] = []
drop_preload (e ∷ env) =
    let rest = drop_preload env in if starts_with e (bytes "LD_PRELOAD=") then env else e ∷ rest

-- The environment that `HxHandleProot` passes on.
unfoldable pub proot_env : List Text → List Text
proot_env [] = []
proot_env (e ∷ env) =
    let rest = proot_env env in
    if starts_with e (bytes "LD_PRELOAD=") || starts_with e (bytes "LD_LIBRARY_PATH=")
    then rest
    else e ∷ rest
