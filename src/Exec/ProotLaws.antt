-- ===== src/Exec/ProotLaws.antt =====
-- What the environment of a program under proot holds.
use hxroot.Base.{
  ◌≡◌, refl, ap, true, none, List, [], ◌∷◌, ◌++◌, arith, if◌then◌else◌, Text, bytes, text_eq,
  starts_with, text_eq→eq,
}
use hxroot.Exec.EnvLaws.{PlainName, listed, defines_other}
use hxroot.Exec.Env.{defines, entry_of, proot_env}

pub defines_prefix : (name e : Text) → starts_with e (name ++ (b'=' ∷ [])) ≡ defines name e
unfolding defines starts_with
defines_prefix [] [] = refl
defines_prefix [] (x ∷ e) = ground arith
defines_prefix (c ∷ name) [] = refl
defines_prefix (c ∷ name) (x ∷ e) = ground (arith, defines_prefix name e)

defines_same : (name other e : Text) → text_eq name other ≡ true → defines name e ≡ defines other e
defines_same name other e q = ap (λ n. defines n e) (text_eq→eq name other q)

abbrev pub loader_names : List Text
loader_names = bytes "LD_PRELOAD" ∷ bytes "LD_LIBRARY_PATH" ∷ []

-- What proot is given sets neither variable of the dynamic loader, and every other variable, of a
-- name without `=`, as it was.
pub entry_of-proot_env :
    (env : List Text) (name : Text)
    → PlainName name
    → entry_of (proot_env env) name ≡ (if listed name loader_names then none else entry_of env name)
unfolding proot_env listed entry_of
entry_of-proot_env [] name pn = ground arith
entry_of-proot_env (e ∷ env) name pn =
    let pre = bytes "LD_PRELOAD" in
    let lib = bytes "LD_LIBRARY_PATH" in
    let plain_pre : PlainName pre = (ground arith) in
    let plain_lib : PlainName lib = (ground arith) in
    ground (
      arith,
      entry_of-proot_env env name pn,
      defines_prefix pre e,
      defines_prefix lib e,
      defines_same name pre e,
      defines_same name lib e,
      defines_other name pre e pn plain_pre,
      defines_other name lib e pn plain_lib,
    )
