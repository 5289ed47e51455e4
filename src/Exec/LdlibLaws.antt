-- ===== src/Exec/LdlibLaws.antt =====
-- The buffer of src/ldlib.c: when it holds what was appended, and when it is left.
use hxroot.Paths.{expanded_len, expand_path}
use hxroot.Config.{Hx}
use hxroot.Base.{
  ℕ, zero, suc, ◌+◌, ◌-◌, ◌^◌, ◌≤◌, ◌<◌, ◌≡◌, refl, false, some, ◌∷◌, ◌++◌, arith, ltb, length,
  take, Text, ◌∙◌, ◌==◌, sym, inl, inr, none, List, [], append-nil, if◌then◌else◌, Bool-cases,
  length-append, take_of_le, true, append_assoc, lt→ltb, ap,
}
use hxroot.Exec.Loader.{append_all}
use hxroot.Exec.Ldlib.{Buffer, remaining, append, print_at, grow, allocate, append_behind}

-- The string ends where the next one goes, and there is room for its null byte; the buffer is not
-- larger than an object can be.
abbrev pub Fits : Buffer → Type 0
Fits b = (length b.text ≡ b.bufpos) × (b.bufpos < b.bufsiz) × (b.bufsiz < 2 ^ 63)

remaining_lem :
    (b : Buffer) → b.bufpos ≤ b.bufsiz → b.bufsiz < 2 ^ 63 → remaining b ≡ b.bufsiz - b.bufpos
remaining_lem b h g = omega arith

grow_enough : (n need : ℕ) (b : Buffer) → ltb (remaining b) need ≡ false → grow n need b ≡ b
unfolding grow
grow_enough zero need b h = refl
grow_enough (suc n) need b h = rw h refl

-- The buffer in which `s` stands alone, and the one with `s` behind.
abbrev pub extend : Text → Buffer → Buffer
extend s b = record b { text = b.text ++ (b':' ∷ s); bufpos = b.bufpos + length s + 1 }

print_at_lem :
    (room : ℕ) (s : Text) (b : Buffer)
    → length b.text ≡ b.bufpos
    → b.bufpos ≤ b.bufsiz
    → 0 < room
    → print_at room s b
      ≡ some (record b {
        text = b.text ++ take (room - 1) (b':' ∷ s);
        bufpos = b.bufpos + length s + 1;
      })
unfolding print_at
print_at_lem room s b e l z = ground arith

print_at_outside :
    (room : ℕ) (s : Text) (b : Buffer) → b.bufsiz < b.bufpos → print_at room s b ≡ none
unfolding print_at
print_at_outside room s b l = rw (lt→ltb b.bufsiz b.bufpos l) refl

append_started : (b : Buffer) (s : Text) → 0 < b.bufpos → append s (some b) ≡ append_behind s b
unfolding append allocate
append_started b s started =
    let z : (b.bufpos == 0) ≡ false = ground arith in rw (append, allocate, z) refl

append_behind_lem :
    (b : Buffer) (s : Text)
    → ltb (remaining b) (length s) ≡ false
    → append_behind s b ≡ print_at (remaining b) s b
unfolding append_behind
append_behind_lem b s g = rw (grow_enough 64 (length s) b g) refl

-- A position behind the end of the buffer is taken for a large room.
behind :
    (t : Text) (b : Buffer)
    → b.bufpos ≡ b.bufsiz + 1
    → b.bufsiz < 2 ^ 63
    → length t < 2 ^ 63
    → append t (some b) ≡ none
behind t b e h g =
    let r : remaining b ≡ 2 ^ 64 - 1 = omega arith in
    let k : ltb (remaining b) (length t) ≡ false = rw r (ground arith) in
    append_started b t (omega arith)
    ∙ append_behind_lem b t k
    ∙ print_at_outside _ t b (omega arith)

module _ (b : Buffer) (s : Text) (fits : Fits b) (started : 0 < b.bufpos) where
  append_lem :
      b.bufpos + length s ≤ b.bufsiz
      → append s (some b)
        ≡ some (record b {
          text = b.text ++ take (b.bufsiz - b.bufpos - 1) (b':' ∷ s);
          bufpos = b.bufpos + length s + 1;
        })
  append_lem room =
      let r : remaining b ≡ b.bufsiz - b.bufpos = omega arith in
      let g : ltb (remaining b) (length s) ≡ false = rw r (ground arith) in
      let z : 0 < remaining b = omega arith in
      append_started b s started
      ∙ append_behind_lem b s g
      ∙ rw (print_at_lem (remaining b) s b fits.0 (omega arith) z, r)

  -- Where the string, its colon and a null byte fit into the rest of the buffer, it is appended, and
  -- the buffer is left as it has to be.
  pub append_room :
      b.bufpos + length s + 2 ≤ b.bufsiz
      → (append s (some b) ≡ some (extend s b)) × Fits (extend s b)
  append_room room =
      let whole : take (b.bufsiz - b.bufpos - 1) (b':' ∷ s) ≡ b':' ∷ s =
        take_of_le (b.bufsiz - b.bufpos - 1) (b':' ∷ s) (omega arith) in
      (
        append_lem (omega arith) ∙ rw whole refl,
        (omega (arith, length-append b.text (b':' ∷ s)), omega arith, omega arith),
      )

  -- Where the string alone just fits, the buffer is not enlarged, and the next string is written
  -- behind it.
  pub append_overflow :
      (t : Text) (b' : Buffer)
      → b.bufpos + length s ≡ b.bufsiz
      → length t < 2 ^ 63
      → append s (some b) ≡ some b'
      → append t (some b') ≡ none
  append_overflow t b' tight small e =
      let k = sym e ∙ append_lem (omega arith) in
      let moved : b'.bufpos ≡ b.bufpos + length s + 1 =
        ap (λ o. elim o [ none ↦ 0 | some x ↦ x.bufpos ]) k in
      let size : b'.bufsiz ≡ b.bufsiz = ap (λ o. elim o [ none ↦ 0 | some x ↦ x.bufsiz ]) k in
      behind t b' (omega arith) (omega arith) small

-- What `append_all` adds: the rewritten ones of the paths, each behind a colon.
unfoldable pub joined : Hx → List Text → Text
joined h [] = []
joined h (tok ∷ toks) =
    let rest = joined h toks in
    if expanded_len h tok == 0 then rest else b':' ∷ (expand_path h tok ++ rest)

joined_skip :
    (h : Hx) (tok : Text) (toks : List Text)
    → (expanded_len h tok == 0) ≡ true
    → joined h (tok ∷ toks) ≡ joined h toks
unfolding joined
joined_skip h tok toks q = rw q refl

joined_take :
    (h : Hx) (tok : Text) (toks : List Text)
    → (expanded_len h tok == 0) ≡ false
    → joined h (tok ∷ toks) ≡ b':' ∷ (expand_path h tok ++ joined h toks)
unfolding joined
joined_take h tok toks q = rw q refl

-- Where all of them fit, the search path that is built is the old one with every rewritten entry
-- behind it in order, each after a colon; entries that need no rewriting are left out.
pub append_all_lem :
    (h : Hx) (toks : List Text) (b : Buffer)
    → Fits b
    → 0 < b.bufpos
    → b.bufpos + length (joined h toks) + 1 ≤ b.bufsiz
    → (b' : Buffer) × (append_all h toks (some b) ≡ some (some b'))
      × (b'.text ≡ b.text ++ joined h toks)
unfolding append_all joined
append_all_lem h [] b fits started room = (b, refl, sym (append-nil b.text))
append_all_lem h (tok ∷ toks) b fits started room = elim (Bool-cases (expanded_len h tok == 0)) [
  | inl q ↦
      let j = joined_skip h tok toks q in
      rw q (append_all_lem h toks b fits started (rw (sym j) room))
  | inr q ↦
      let j = joined_take h tok toks q in
      let x = expand_path h tok in
      let r : length (joined h (tok ∷ toks)) ≡ length (b':' ∷ (x ++ joined h toks)) = ap length j in
      let l = length-append x (joined h toks) in
      let (e, f) = append_room b x fits started (omega arith) in
      let (b', e', t) = append_all_lem h toks (extend x b) f (omega arith) (omega arith) in
      rw (q, e) (b', e', t ∙ append_assoc b.text (b':' ∷ x) (joined h toks))
]
