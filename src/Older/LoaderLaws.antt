-- ===== src/Older/LoaderLaws.antt =====
-- Where the loaders of the two copies do the same.
use hxroot.Older.Loader.{old_choose_loader, old_handle_elf64, old_preserve_env}
use hxroot.Exec.Loader.{
  handle_elf64, start_program, choose_loader, is_bionic, library_path, real_execve, loader_argv,
}
use hxroot.Exec.Elf.{ElfInfo}
use hxroot.Exec.Env.{entry_of, preserve_one, preserve, Process, supply, preserve_env}
use hxroot.Sys.{Kernel, M, abort, Outcome, ok}
use hxroot.Config.{Hx}
use hxroot.Base.{
  ◌≡◌, refl, false, none, some, List, [], ◌∷◌, ◌++◌, All, Text, bytes, ℕ, ◌∙◌, Option, arith,
  text_eq, sym, ap,
}

-- The variables that only the newer copy preserves.
abbrev pub newer_names : List Text
newer_names =
    bytes "FAKECHROOT"
    ∷ bytes "FAKECHROOT_BASE"
    ∷ bytes "FAKECHROOT_EXCLUDE_PATH"
    ∷ bytes "FAKECHROOT_CMD_SUBST"
    ∷ bytes "FAKECHROOT_DEBUG"
    ∷ []

-- Neither `environ` nor its copy sets the variable.
abbrev pub Unset : Process → Text → Type 0
Unset p name = (entry_of p.environ name ≡ none) × (entry_of p.backup name ≡ none)

preserve-append :
    (h : Hx) (p : Process) (names more env : List Text)
    → preserve h p (names ++ more) env ≡ preserve h p more (preserve h p names env)
unfolding preserve
preserve-append h p [] more env = refl
preserve-append h p (n ∷ names) more env = preserve-append h p names more (preserve_one h p env n)

supply-Unset :
    (h : Hx) (p : Process) (name : Text)
    → text_eq (bytes "HxUid") name ≡ false
    → text_eq (bytes "HxGid") name ≡ false
    → Unset p name
    → supply h p name ≡ none
unfolding supply
supply-Unset h p name u g (e, f) = rw (u, g, e) f

preserve_one-none :
    (h : Hx) (p : Process) (env : List Text) (name : Text)
    → supply h p name ≡ none
    → preserve_one h p env name ≡ env
unfolding preserve_one
preserve_one-none h p env name e = ground arith

preserve-none :
    (h : Hx) (p : Process) (names env : List Text)
    → All (λ n. supply h p n ≡ none) names
    → preserve h p names env ≡ env
unfolding preserve
preserve-none h p [] env a = refl
preserve-none h p (n ∷ names) env (e, a) =
    rw (preserve_one-none h p env n e) (preserve-none h p names env a)

preserve_newer :
    (h : Hx) (p : Process) (env : List Text)
    → All (Unset p) newer_names
    → preserve h p newer_names env ≡ env
unfolding text_eq
preserve_newer h p env (a, (b, (c, (d, (e, u))))) = preserve-none h p newer_names env (
  supply-Unset h p (bytes "FAKECHROOT") refl refl a,
  (
    supply-Unset h p (bytes "FAKECHROOT_BASE") refl refl b,
    (
      supply-Unset h p (bytes "FAKECHROOT_EXCLUDE_PATH") refl refl c,
      (
        supply-Unset h p (bytes "FAKECHROOT_CMD_SUBST") refl refl d,
        (supply-Unset h p (bytes "FAKECHROOT_DEBUG") refl refl e, u),
      ),
    ),
  ),
)

preserve_same :
    (h : Hx) (p : Process) (env : List Text)
    → All (Unset p) newer_names
    → preserve h p preserve_env env ≡ preserve h p old_preserve_env env
preserve_same h p env a =
    preserve-append h p old_preserve_env newer_names env
    ∙ preserve_newer h p (preserve h p old_preserve_env env) a

new_choice :
    (K : Kernel) (h : Hx) (interp l : Text) (s : K.State)
    → h.linker ≡ some l
    → choose_loader K h interp s ≡ (ok l, s)
unfolding choose_loader
new_choice K h interp l s e = rw e refl

old_choice : (h : Hx) (interp l : Text) → h.linker ≡ some l → old_choose_loader h interp ≡ l
unfolding old_choose_loader
old_choice h interp l e = rw e refl

module _ (K : Kernel) (h : Hx) (p : Process) (path : Text) (argv envp : List Text) (info : ElfInfo)
    (interp l : Text) (s : K.State) where
  -- The rest of both, of the environment if there is one.
  abbrev started : Option (List Text) → Outcome ℕ × K.State
  started o =
      (elim o as (λ x. M K.State ℕ) [
        | none ↦ abort
        | some new_envp ↦ start_program K l path argv new_envp
      ])
        s

  abbrev old_started : Option (List Text) → Outcome ℕ × K.State
  old_started o =
      (elim o as (λ x. M K.State ℕ) [
        | none ↦ abort
        | some new_envp ↦ real_execve K l (loader_argv l path argv) new_envp
      ])
        s

  started_same : (o : Option (List Text)) → is_bionic l ≡ false → started o ≡ old_started o
  unfolding start_program
  started_same none b = refl
  started_same (some env) b = rw b refl

  handle_elf64-started :
      choose_loader K h interp s ≡ (ok l, s)
      → handle_elf64 K h p path argv envp info interp s
        ≡ started (library_path h info envp (preserve h p preserve_env envp))
  unfolding handle_elf64
  handle_elf64-started c = rw c refl

  old_handle_elf64-old_started :
      old_choose_loader h interp ≡ l
      → old_handle_elf64 K h p path argv envp info interp s
        ≡ old_started (library_path h info envp (preserve h p old_preserve_env envp))
  unfolding old_handle_elf64
  old_handle_elf64-old_started c =
      let o = library_path h info envp (preserve h p old_preserve_env envp) in
      ap
        (λ x.
          (elim o as (λ y. M K.State ℕ) [
            | none ↦ abort
            | some new_envp ↦ real_execve K x (loader_argv x path argv) new_envp
          ])
            s)
        c

-- In a process with `HxLinker`, not the linker of Android, and where neither environment sets one of
-- the `FAKECHROOT` variables, the two copies start a program by the same call of the host, whatever
-- environment is given to `execve`.
pub handle_elf64-old :
    (K : Kernel) (h : Hx) (p : Process) (path : Text) (argv envp : List Text) (info : ElfInfo)
    (interp l : Text) (s : K.State)
    → h.linker ≡ some l
    → is_bionic l ≡ false
    → All (Unset p) newer_names
    → handle_elf64 K h p path argv envp info interp s
      ≡ old_handle_elf64 K h p path argv envp info interp s
handle_elf64-old K h p path argv envp info interp l s e b a =
    let o = library_path h info envp (preserve h p old_preserve_env envp) in
    handle_elf64-started K h p path argv envp info interp l s (new_choice K h interp l s e)
    ∙ ap (λ x. started K h p path argv envp info interp l s (library_path h info envp x))
        (preserve_same h p envp a)
    ∙ started_same K h p path argv envp info interp l s o b
    ∙ sym (
        old_handle_elf64-old_started K h p path argv envp info interp l s (old_choice h interp l e))
