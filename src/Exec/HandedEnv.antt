-- ===== src/Exec/HandedEnv.antt =====
-- The environment that `HxHandleElf64` of src/exec.c hands on, read off the log of its host calls.
use hxroot.Exec.Elf.{ElfInfo}
use hxroot.Paths.{is_none}
use hxroot.Exec.EnvLaws.{PlainName, listed, or_else, defines_other, entry_of-preserve}
use hxroot.Exec.ProotLaws.{defines_prefix}
use hxroot.Exec.Env.{Process, entry_of, supply, preserve_env, drop_preload, preserve}
use hxroot.Exec.Loader.{
  executable, start_program, real_execve, is_bionic, choose_loader, loader_argv, library_path,
  handle_elf64,
}
use hxroot.Sys.{Call, Kernel, Op, strs, ok, call, fail, Outcome, aborted, exhausted}
use hxroot.Sys.Log.{logged}
use hxroot.Config.{Hx}
use hxroot.Base.{
  ◌≡◌, refl, false, Option, List, [], ◌∷◌, arith, if◌then◌else◌, Text, bytes, text_eq, ◌⊎◌, Bool,
  sym, ap, inl, inr, true, ◌&&◌, some, Bool-cases, All,
}

abbrev preload : Text
preload = bytes "LD_PRELOAD"

-- Taking `LD_PRELOAD` out leaves every other variable.
entry_of-drop_preload :
    (env : List Text) (name : Text)
    → PlainName name
    → text_eq name preload ≡ false
    → entry_of (drop_preload env) name ≡ entry_of env name
unfolding entry_of drop_preload
entry_of-drop_preload [] name pn ne = refl
entry_of-drop_preload (e ∷ env) name pn ne =
    let plain : PlainName preload = (ground arith) in
    ground (
      arith,
      entry_of-drop_preload env name pn ne,
      defines_prefix preload e,
      defines_other name preload e pn plain ne,
    )

-- What a variable is in an environment that is handed on.
abbrev pub handed : Hx → Process → List Text → Text → Option Text
handed h p envp name =
    if listed name preserve_env
    then or_else (entry_of envp name) (supply h p name)
    else entry_of envp name

abbrev pub execve_call : Text → List Text → List Text → Call
execve_call path argv envp = record {
  op = Op.execve;
  paths = path ∷ [];
  args = strs argv ∷ strs envp ∷ [];
}

-- The newest call of the log starts a program, with an environment in which this variable is so.
abbrev pub StartsWith : Text → Option Text → List Call → Type 0
StartsWith name v log =
    (path : Text) × (argv envp : List Text) × (earlier : List Call) × (log
      ≡ execve_call path argv envp ∷ earlier)
    × (entry_of envp name ≡ v)

abbrev is_ok : {A : Type 0} → Outcome A → Bool
is_ok (ok a) = true
is_ok _ = false

is_ok_value : {A : Type 0} (o : Outcome A) → is_ok o ≡ true → (a : A) × (o ≡ ok a)
is_ok_value (ok a) e = (a, refl)
is_ok_value (fail x) e = cc
is_ok_value aborted e = cc
is_ok_value exhausted e = cc

pair_eq : {A B : Type 0} {p : A × B} {a : A} → p.0 ≡ a → p ≡ (a, p.1)
pair_eq {p = p} e = ap (λ x. (x, p.1)) e

module _ (K : Kernel) where
  choose_loader-is_ok :
      (h : Hx) (interp : Text) (s : K.State) → is_ok (choose_loader K h interp s).0 ≡ true
  unfolding choose_loader executable call
  choose_loader-is_ok h interp s = ground arith

  choose_loader_linker :
      (h : Hx) (interp l : Text) (s : K.State)
      → h.linker ≡ some l
      → choose_loader K h interp s ≡ (ok l, s)
  unfolding choose_loader
  choose_loader_linker h interp l s e = rw e refl

module _ (K : Kernel) where
  real_execve_log :
      (path : Text) (argv envp : List Text) (s : (logged K).State)
      → (real_execve (logged K) path argv envp s).1.0 ≡ execve_call path argv envp ∷ s.0
  unfolding real_execve call
  real_execve_log path argv envp s = ground arith

  start_program-StartsWith :
      (loader new_path name : Text) (argv envp : List Text) (s : (logged K).State)
      → PlainName name
      → (text_eq name preload ≡ false) ⊎ (is_bionic loader ≡ false)
      → StartsWith name
          (entry_of envp name)
          (start_program (logged K) loader new_path argv envp s).1.0
  unfolding start_program
  start_program-StartsWith loader new_path name argv envp s pn e =
      elim (Bool-cases (is_bionic loader)) [
        | inl b ↦ rw b (
          new_path,
          argv,
          drop_preload envp,
          s.0,
          real_execve_log new_path argv (drop_preload envp) s,
          elim e [ inl ne ↦ entry_of-drop_preload envp name pn ne | inr nb ↦ cc ],
        )
        | inr b ↦ rw b (
          loader,
          loader_argv loader new_path argv,
          envp,
          s.0,
          real_execve_log loader (loader_argv loader new_path argv) envp s,
          refl,
        )
      ]

  module _ (h : Hx) (p : Process) (new_path : Text) (argv envp : List Text) (info : ElfInfo)
      (interp name : Text) (s : (logged K).State) where
    started :
        (loader : Text) (t : (logged K).State)
        → choose_loader (logged K) h interp s ≡ (ok loader, t)
        → is_none info.rpath && is_none info.runpath ≡ true
        → handle_elf64 (logged K) h p new_path argv envp info interp s
          ≡ start_program (logged K) loader new_path argv (preserve h p preserve_env envp) t
    unfolding handle_elf64 library_path
    started loader t c e = rw (c, e) refl

    -- For a file that asks for no search path, the last call that `HxHandleElf64` makes of the host
    -- starts a program, and in the environment that this call hands on a variable of `PRESERVE_ENV`
    -- is what the given environment sets, and else what is supplied for it (the faked id, the entry of
    -- `environ`, or that of its copy), and every other variable is as in the given environment. The
    -- name holds no `=`, and is not `LD_PRELOAD` unless `HxLinker` is set and not the one of Android.
    pub handle_elf64-StartsWith :
        is_none info.rpath && is_none info.runpath ≡ true
        → PlainName name
        → (text_eq name preload ≡ false)
          ⊎ ((l : Text) × (h.linker ≡ some l) × (is_bionic l ≡ false))
        → StartsWith name
            (handed h p envp name)
            (handle_elf64 (logged K) h p new_path argv envp info interp s).1.0
    handle_elf64-StartsWith e pn c =
        let env = preserve h p preserve_env envp in
        let plain : All PlainName preserve_env = (ground arith) in
        let v = entry_of-preserve h p envp preserve_env name pn plain in
        elim c [
          | inl ne ↦
              let (loader, o) =
                is_ok_value (choose_loader (logged K) h interp s).0
                  (choose_loader-is_ok (logged K) h interp s) in
              let t = (choose_loader (logged K) h interp s).1 in
              rw (started loader t (pair_eq o) e, sym v)
                (start_program-StartsWith loader new_path name argv env t pn (inl ne))
          | inr (l, q, b) ↦
              rw (started l s (choose_loader_linker (logged K) h interp l s q) e, sym v)
                (start_program-StartsWith l new_path name argv env s pn (inr b))
        ]
