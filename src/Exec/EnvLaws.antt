-- ===== src/Exec/EnvLaws.antt =====
-- What the environment of a started program holds.
use hxroot.Base.Words.{decimal_text}
use hxroot.Config.{Hx}
use hxroot.Base.{
  ◌≡◌, refl, ◌≢◌, Bool, true, false, Option, none, some, List, [], ◌∷◌, ◌++◌, arith, if◌then◌else◌,
  All, Text, text_eq, starts_with, inl, inr, ==_refl, Bool-cases, bytes, sym, text_eq→eq,
  text_eq_iff, ◌≤◌, length, ap, ◌∙◌, append-nil, append_assoc, length-append,
}
use mathlib.Core.Path.{ap₂}
use hxroot.Paths.{is_none}
use hxroot.Exec.Env.{
  defines, find_env, entry_of, Process, preserve_one, supply, append_entry, preserve,
}

-- A name of a variable holds no `=`.
abbrev pub PlainName : Text → Type 0
PlainName name = All (λ c. c ≢ b'=') name

-- The name is one of these.
unfoldable pub listed : Text → List Text → Bool
listed name [] = false
listed name (n ∷ names) = let rest = listed name names in if text_eq name n then true else rest

abbrev pub or_else : {A : Type 0} → Option A → Option A → Option A
or_else none b = b
or_else (some a) b = some a

defines_unique :
    (a b e : Text) → PlainName a → PlainName b → defines a e ≡ true → defines b e ≡ true → a ≡ b
unfolding defines starts_with
defines_unique [] [] e pa pb h g = refl
defines_unique [] (b ∷ bs) [] pa pb h g = cc
defines_unique [] (b ∷ bs) (x ∷ e) pa pb h g = absurd (pb.0 (ground arith))
defines_unique (a ∷ xs) [] [] pa pb h g = cc
defines_unique (a ∷ xs) [] (x ∷ e) pa pb h g = absurd (pa.0 (ground arith))
defines_unique (a ∷ xs) (b ∷ bs) [] pa pb h g = cc
defines_unique (a ∷ xs) (b ∷ bs) (x ∷ e) pa pb h g =
    let q : a ≡ b = ground arith in
    let hs : defines xs e ≡ true = ground arith in
    let gs : defines bs e ≡ true = ground arith in
    ap₂ ◌∷◌ q (defines_unique xs bs e pa.1 pb.1 hs gs)

entry_of-append :
    (env : List Text) (e name : Text)
    → entry_of (env ++ (e ∷ [])) name
      ≡ or_else (entry_of env name) (if defines name e then some e else none)
unfolding entry_of
entry_of-append [] e name = ground arith
entry_of-append (x ∷ env) e name = rw (entry_of-append env e name) (ground arith)

-- The index is found exactly where the entry is.
find_env-entry_of :
    (env : List Text) (name : Text) → is_none (find_env env name) ≡ is_none (entry_of env name)
unfolding find_env entry_of
find_env-entry_of [] name = refl
find_env-entry_of (x ∷ env) name = ground (arith, find_env-entry_of env name)

entry_of-defines :
    (env : List Text) (name e : Text) → entry_of env name ≡ some e → defines name e ≡ true
unfolding entry_of
entry_of-defines [] name e h = cc
entry_of-defines (x ∷ env) name e h = ground (arith, entry_of-defines env name e)

append_entry_same :
    (env : List Text) (name : Text) (o : Option Text)
    → ((e : Text) → o ≡ some e → defines name e ≡ true)
    → entry_of (append_entry env o) name ≡ or_else (entry_of env name) o
append_entry_same env name none k = ground arith
append_entry_same env name (some x) k = rw (entry_of-append env x name, k x refl) refl

append_entry_other :
    (env : List Text) (name : Text) (o : Option Text)
    → ((e : Text) → o ≡ some e → defines name e ≡ false)
    → entry_of (append_entry env o) name ≡ entry_of env name
append_entry_other env name none k = refl
append_entry_other env name (some x) k = rw (entry_of-append env x name, k x refl) (ground arith)

pub defines_other :
    (name other e : Text)
    → PlainName name
    → PlainName other
    → text_eq name other ≡ false
    → defines other e ≡ true
    → defines name e ≡ false
defines_other name other e pn po ne g = elim (Bool-cases (defines name e)) [
  | inl q ↦
      let n : name ≡ other = defines_unique name other e pn po q g in
      let k : text_eq name other ≡ true = (text_eq_iff name other).1 n in cc
  | inr q ↦ q
]

starts_with-defines : (name v : Text) → defines name (name ++ (b'=' ∷ v)) ≡ true
unfolding defines starts_with
starts_with-defines [] v = refl
starts_with-defines (c ∷ name) v = rw (==_refl c, starts_with-defines name v)

module _ (h : Hx) (p : Process) where
  supply_id :
      (kind v name e : Text)
      → kind ≡ name
      → some (kind ++ (b'=' ∷ v)) ≡ some e
      → defines name e ≡ true
  supply_id kind v name e n g =
      let w : kind ++ (b'=' ∷ v) ≡ e = cc in rw (sym n, sym w, starts_with-defines kind v)

  supply-defines : (name e : Text) → supply h p name ≡ some e → defines name e ≡ true
  unfolding supply
  supply-defines name e g = elim (Bool-cases (text_eq (bytes "HxUid") name)) [
    | inl q ↦
        supply_id (bytes "HxUid") (decimal_text h.uid) name e (text_eq→eq _ _ q) (ground arith)
    | inr q ↦ elim (Bool-cases (text_eq (bytes "HxGid") name)) [
      | inl r ↦
          supply_id (bytes "HxGid") (decimal_text h.gid) name e (text_eq→eq _ _ r) (ground arith)
      | inr r ↦ ground (arith, entry_of-defines p.environ name e, entry_of-defines p.backup name e)
    ]
  ]

  -- One round, without the index.
  preserve_one_eq :
      (env : List Text) (name : Text)
      → preserve_one h p env name
        ≡ (if is_none (entry_of env name) then append_entry env (supply h p name) else env)
  unfolding preserve_one
  preserve_one_eq env name = ground (arith, find_env-entry_of env name)

  preserve_one_same :
      (env : List Text) (name : Text)
      → entry_of (preserve_one h p env name) name ≡ or_else (entry_of env name) (supply h p name)
  preserve_one_same env name =
      rw (preserve_one_eq env name)
        (ground (arith, append_entry_same env name (supply h p name) (supply-defines name)))

  preserve_one_other :
      (env : List Text) (name other : Text)
      → PlainName name
      → PlainName other
      → text_eq name other ≡ false
      → entry_of (preserve_one h p env other) name ≡ entry_of env name
  preserve_one_other env name other pn po ne = rw (preserve_one_eq env other) (
      ground (
        arith,
        append_entry_other env name (supply h p other)
            (λ e g. defines_other name other e pn po ne (supply-defines other e g)),
      ))

  preserve_one_lem :
      (env : List Text) (name other : Text)
      → PlainName name
      → PlainName other
      → entry_of (preserve_one h p env other) name ≡ (
          if text_eq name other
          then or_else (entry_of env name) (supply h p name)
          else entry_of env name)
  preserve_one_lem env name other pn po = elim (Bool-cases (text_eq name other)) [
    | inl q ↦ rw (q, sym (text_eq→eq _ _ q), preserve_one_same env name)
    | inr q ↦ rw (q, preserve_one_other env name other pn po q)
  ]

  -- Behind the loop a variable of the list is what the given environment sets, and else what is
  -- supplied for it; every other variable is as it was. No name has an `=`.
  pub entry_of-preserve :
      (env names : List Text) (name : Text)
      → PlainName name
      → All PlainName names
      → entry_of (preserve h p names env) name ≡ (
          if listed name names
          then or_else (entry_of env name) (supply h p name)
          else entry_of env name)
  unfolding preserve listed
  entry_of-preserve env [] name pn ps = refl
  entry_of-preserve env (n ∷ names) name pn (q, ps) = ground (
    arith,
    entry_of-preserve (preserve_one h p env n) names name pn ps,
    preserve_one_lem env name n pn q,
  )

  append_entry_bounds :
      (env : List Text) (o : Option Text)
      → (more : List Text) × (append_entry env o ≡ env ++ more) × (length more ≤ 1)
  append_entry_bounds env none = ([], sym (append-nil env), omega arith)
  append_entry_bounds env (some x) = (x ∷ [], refl, omega arith)

  preserve_one_bounds :
      (env : List Text) (name : Text)
      → (more : List Text) × (preserve_one h p env name ≡ env ++ more) × (length more ≤ 1)
  preserve_one_bounds env name = elim (Bool-cases (is_none (entry_of env name))) [
    | inl q ↦ rw (preserve_one_eq env name, q) (append_entry_bounds env (supply h p name))
    | inr q ↦ rw (preserve_one_eq env name, q) ([], sym (append-nil env), omega arith)
  ]

  -- The given entries stay in front, in their order, and at most one is added for each name.
  pub preserve_bounds :
      (env names : List Text)
      → (more : List Text) × (preserve h p names env ≡ env ++ more) × (length more ≤ length names)
  unfolding preserve
  preserve_bounds env [] = ([], sym (append-nil env), omega arith)
  preserve_bounds env (n ∷ names) =
      let (xs, e, b) = preserve_one_bounds env n in
      let (ys, e', b') = preserve_bounds (preserve_one h p env n) names in
      (
        xs ++ ys,
        e' ∙ ap (λ l. l ++ ys) e ∙ append_assoc env xs ys,
        omega (arith, length-append xs ys),
      )
