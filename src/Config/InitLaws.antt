-- ===== src/Config/InitLaws.antt =====
-- What `HxDoInit` makes of the ids, the binds and the other settings that `execve` passes on.
use hxroot.Exec.EnvLaws.{listed, entry_of-preserve, PlainName}
use hxroot.Exec.Env.{entry_of, preserve, supply, get_env, preserve_env, Process}
use hxroot.Config.{Hx}
use hxroot.Base.Words.{digits, decimal_text, split, add_byte, tokens, nonempty, Clean}
use hxroot.Base.{
  ℕ, zero, suc, ◌+◌, ◌-◌, ◌*◌, ◌%◌, ◌^◌, ◌<◌, ◌≡◌, inl, inr, true, some, ◌∷◌, arith, ltb, leb,
  ltb→lt, Bool-cases, Text, ◌/◌, refl, ap, ◌∙◌, [], lt→ltb, false, Option, none, List,
  if◌then◌else◌, bytes, Bool, ◌++◌, length, drop, All, text_eq, ◌≤◌, ◌≢◌, ◌||◌, ◌==◌, take,
  length-take,
}
use hxroot.Config.Init.{atoi_from, simple_atoi, initial_id, parse_binds}

atoi_digit :
    (res d : ℕ) (s : Text)
    → res * 10 + d < 2 ^ 32
    → d < 10
    → atoi_from res ((b'0' + d) ∷ s) ≡ atoi_from (res * 10 + d) s
unfolding atoi_from
atoi_digit res d s h g =
    let e : (res * 10 + ((b'0' + d) - b'0')) % 2 ^ 32 ≡ res * 10 + d = omega arith in
    let l : leb b'0' (b'0' + d) ≡ true = ground arith in
    let r : leb (b'0' + d) b'9' ≡ true = ground arith in rw (l, r, e)

-- The power as a bound: the number's digits fit into `n` places.
abbrev pub power : ℕ → ℕ
power zero = 1
power (suc n) = 10 * power n

one_digit :
    (n x : ℕ) (s : Text) → ltb x 10 ≡ true → atoi_from 0 (digits (suc n) x s) ≡ atoi_from x s
unfolding digits
one_digit n x s q =
    let e : 0 * 10 + x ≡ x = omega arith in
    let b : x < 10 = ltb→lt x 10 q in rw (q, atoi_digit 0 x s (omega arith) b, e)

atoi_from-digits :
    (n x : ℕ) (s : Text)
    → x < power (suc n)
    → x < 2 ^ 32
    → atoi_from 0 (digits (suc n) x s) ≡ atoi_from x s
unfolding digits
atoi_from-digits zero x s h b = one_digit 0 x s (lt→ltb x 10 (omega arith))
atoi_from-digits (suc n) x s h b = elim (Bool-cases (ltb x 10)) [
  | inl q ↦ one_digit (suc n) x s q
  | inr q ↦
      let e : (x / 10) * 10 + x % 10 ≡ x = omega arith in
      rw q (
        atoi_from-digits n (x / 10) _ (omega arith) (omega arith)
        ∙ atoi_digit (x / 10) (x % 10) s (omega arith) (omega arith)
        ∙ ap (λ y. atoi_from y s) e)
]

-- An int that is not negative survives the way through the environment.
pub simple_atoi-decimal_text : (u : ℕ) → u < 2 ^ 31 → simple_atoi (some (decimal_text u)) ≡ u
unfolding simple_atoi decimal_text atoi_from
simple_atoi-decimal_text u h =
    rw (lt→ltb u (2 ^ 31) h, atoi_from-digits 9 u [] (omega arith) (omega arith)) refl

simple_atoi-negative : (u : ℕ) → ltb u (2 ^ 31) ≡ false → simple_atoi (some (decimal_text u)) ≡ 0
unfolding simple_atoi decimal_text atoi_from
simple_atoi-negative u h = rw h refl

atoi_int : (u : ℕ) → simple_atoi (some (decimal_text u)) ≡ (if ltb u (2 ^ 31) then u else 0)
atoi_int u = elim (Bool-cases (ltb u (2 ^ 31))) [
  | inl q ↦ rw q (simple_atoi-decimal_text u (ltb→lt u (2 ^ 31) q))
  | inr q ↦ rw q (simple_atoi-negative u q)
]

initial_id_of :
    (env : List Text) (root : Option Text) (name e : Text)
    → entry_of env name ≡ some e
    → initial_id env root name ≡ simple_atoi (some (drop (length name + 1) e))
unfolding initial_id get_env
initial_id_of env root name e q = rw (initial_id, get_env, q) refl

module _ (h : Hx) (p : Process) (env : List Text) where
  preserved_entry :
      (name : Text)
      → PlainName name
      → listed name preserve_env ≡ true
      → entry_of env name ≡ none
      → entry_of (preserve h p preserve_env env) name ≡ supply h p name
  preserved_entry name pn l e =
      let plain : All PlainName preserve_env = ground arith in
      entry_of-preserve h p env preserve_env name pn plain ∙ rw (l, e) refl

  supply_uid : supply h p (bytes "HxUid") ≡ some (bytes "HxUid=" ++ decimal_text h.uid)
  unfolding supply text_eq
  supply_uid = refl

  supply_gid : supply h p (bytes "HxGid") ≡ some (bytes "HxGid=" ++ decimal_text h.gid)
  unfolding supply text_eq
  supply_gid = refl

  is_listed :
      (listed (bytes "HxUid") preserve_env ≡ true) × (listed (bytes "HxGid") preserve_env ≡ true)
  unfolding listed text_eq
  is_listed = (refl, refl)

  -- The ids that a process fakes are found again by a program that it starts, if the environment that
  -- is given sets neither: as they were where the int is not negative. An id that is not faked, -1, is
  -- found as 0.
  pub initial_id-preserve :
      (root : Option Text)
      → entry_of env (bytes "HxUid") ≡ none
      → entry_of env (bytes "HxGid") ≡ none
      → (initial_id (preserve h p preserve_env env) root (bytes "HxUid")
          ≡ (if ltb h.uid (2 ^ 31) then h.uid else 0))
        × (initial_id (preserve h p preserve_env env) root (bytes "HxGid")
            ≡ (if ltb h.gid (2 ^ 31) then h.gid else 0))
  initial_id-preserve root u g =
      let ku = preserved_entry (bytes "HxUid") (ground arith) is_listed.0 u ∙ supply_uid in
      let kg = preserved_entry (bytes "HxGid") (ground arith) is_listed.1 g ∙ supply_gid in
      (initial_id_of _ root _ _ ku ∙ atoi_int h.uid, initial_id_of _ root _ _ kg ∙ atoi_int h.gid)

add_byte-All :
    (q : ℕ → Bool) (c : ℕ) (ws : List Text)
    → q c ≡ false
    → All (Clean q) ws
    → All (Clean q) (add_byte c ws)
add_byte-All q c [] e a = ((e, tt), tt)
add_byte-All q c (w ∷ ws) e (a, b) = ((e, a), b)

split-All : (q : ℕ → Bool) (s : Text) → All (Clean q) (split q s)
unfolding split
split-All q [] = (tt, tt)
split-All q (c ∷ s) = elim (Bool-cases (q c)) [
  | inl e ↦ rw e (tt, split-All q s)
  | inr e ↦ rw e (add_byte-All q c (split q s) e (split-All q s))
]

nonempty-All :
    (q : ℕ → Bool) (ws : List Text)
    → All (Clean q) ws
    → All (λ w. (w ≢ []) × Clean q w) (nonempty ws)
nonempty-All q [] a = tt
nonempty-All q ([] ∷ ws) (a, b) = nonempty-All q ws b
nonempty-All q ((c ∷ w) ∷ ws) (a, b) = ((λ e. cc, a), nonempty-All q ws b)

take-All {ℓ κ} : {A : Type ℓ} (P : A → Type κ) (n : ℕ) (xs : List A) → All P xs → All P (take n xs)
take-All P zero xs a = tt
take-All P (suc n) [] a = tt
take-All P (suc n) (x ∷ xs) (a, b) = (a, take-All P n xs b)

abbrev pub is_separator : ℕ → Bool
is_separator c = c == b':' || c == b' ' || c == b'\n'

-- There are at most 16 binds, and each is a word that is not empty and holds none of the three
-- separators.
pub parse_binds_lem :
    (s : Text)
    → (length (parse_binds s) ≤ 16) × All (λ w. (w ≢ []) × Clean is_separator w) (parse_binds s)
unfolding parse_binds tokens
parse_binds_lem s = (
  omega (arith, length-take 16 (nonempty (split is_separator s))),
  take-All _ 16 _ (nonempty-All is_separator _ (split-All is_separator s)),
)
