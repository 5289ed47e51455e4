-- ===== src/Links/Laws.antt =====
-- What the count files and the hidden names of src/link.c promise.
use hxroot.Sys.{ok, Shape, word, Op, Kernel, call}
use hxroot.Links.Names.{
  dirname, basename, l2s_name, mktemp_char, mktemp_chars, mktemp, template_tail,
}
use hxroot.Base.{
  ℕ, zero, suc, ◌%◌, ◌^◌, ◌≤◌, ◌<◌, ◌≡◌, refl, sym, ap, ◌∙◌, ◌≢◌, inl, inr, none, some, [], ◌∷◌,
  ◌++◌, map, append_assoc, arith, length, get_elem?, drop-append, List-cases, drop_end, take_end,
  All, Text, bytes, text_eq_refl,
}
use hxroot.Files.Stat.{decode_int, encode_int, through_last_slash}

-- A count below `2 ^ 32` survives the way to the file and back.
pub decode_int-encode_int : (n : ℕ) → n < 2 ^ 32 → decode_int (encode_int n) ≡ some n
unfolding decode_int encode_int
decode_int-encode_int n h = ap some (omega arith)

-- Four bytes are read back to the same bytes when the count is written.
pub encode_int-decode_int :
    (a b c d : ℕ) {n : ℕ}
    → a < 256
    → b < 256
    → c < 256
    → d < 256
    → decode_int (a ∷ b ∷ c ∷ d ∷ []) ≡ some n
    → encode_int n ≡ a ∷ b ∷ c ∷ d ∷ []
unfolding decode_int encode_int
encode_int-decode_int a b c d p q r t e = ground arith

abbrev pub NoSlash : Text → Type 0
NoSlash = All (λ c. c ≢ b'/')

through_last_slash-none : (s : Text) → NoSlash s → through_last_slash s ≡ []
unfolding through_last_slash
through_last_slash-none [] h = refl
through_last_slash-none (c ∷ s) (ne, h) = rw (through_last_slash-none s h) (ground arith)

through_last_slash-cons :
    (c : ℕ) (s : Text)
    → through_last_slash s ≢ []
    → through_last_slash (c ∷ s) ≡ c ∷ through_last_slash s
unfolding through_last_slash
through_last_slash-cons c s ne = elim (List-cases (through_last_slash s)) [
  | inl e ↦ absurd (ne e)
  | inr (d, r, e) ↦ rw e (ground arith)
]

abbrev pub slash : Text
slash = b'/' ∷ []

append_slash-ne : (d : Text) → d ++ slash ≢ []
append_slash-ne [] e = cc
append_slash-ne (c ∷ d) e = cc

through_last_slash-append :
    (dir base : Text) → NoSlash base → through_last_slash (dir ++ (b'/' ∷ base)) ≡ dir ++ slash
through_last_slash-append [] base h =
    unfold through_last_slash in rw (through_last_slash-none base h)
through_last_slash-append (c ∷ dir) base h =
    let ih = through_last_slash-append dir base h in
    through_last_slash-cons c (dir ++ (b'/' ∷ base)) (λ e. append_slash-ne dir (sym ih ∙ e))
    ∙ ap (◌∷◌ c) ih

split_last : (dir base : Text) → dir ++ (b'/' ∷ base) ≡ (dir ++ slash) ++ base
split_last [] base = refl
split_last (c ∷ dir) base = ap (◌∷◌ c) (split_last dir base)

dirname-append : (dir base : Text) → NoSlash base → dirname (dir ++ (b'/' ∷ base)) ≡ dir
unfolding dirname
dirname-append dir base h = rw (through_last_slash-append dir base h) (take_end dir slash)

basename-append : (dir base : Text) → NoSlash base → basename (dir ++ (b'/' ∷ base)) ≡ base
unfolding basename
basename-append dir base h =
    rw (through_last_slash-append dir base h, split_last dir base) (drop-append (dir ++ slash) base)

-- The hidden name of a file lies in the file's own directory: only the last component is new, and
-- it holds the old one between `.HxL2s.` and the six characters that are filled in.
pub l2s_name-append :
    (dir base : Text)
    → NoSlash base
    → l2s_name (dir ++ (b'/' ∷ base)) ≡ dir ++ (bytes "/.HxL2s." ++ (base ++ bytes ".XXXXXX"))
unfolding l2s_name
l2s_name-append dir base h = rw (dirname-append dir base h, basename-append dir base h)

-- The template, less its last six characters.
abbrev pub l2s_stem : Text → Text
l2s_stem path = dirname path ++ (bytes "/.HxL2s." ++ (basename path ++ bytes "."))

l2s_name-stem : (path : Text) → l2s_name path ≡ l2s_stem path ++ template_tail
unfolding l2s_name
l2s_name-stem path = simp append_assoc

-- The template that `HxL2sName` makes is one that `HxMktemp` accepts: given six random bytes, only
-- the six final characters change, each to the character that its byte selects, and no call of the
-- host is made but the one for the random bytes.
pub mktemp-l2s_name :
    (K : Kernel) (path r : Text) (s s' : K.State)
    → call K Shape.text (record { op = Op.getrandom; paths = []; args = word 6 ∷ word 0 ∷ [] }) s
      ≡ (ok r, s')
    → length r ≡ 6
    → mktemp K (l2s_name path) s ≡ (ok (l2s_stem path ++ map mktemp_char r), s')
unfolding mktemp
mktemp-l2s_name K path r s s' e six = rw (
  e,
  six,
  l2s_name-stem path,
  drop_end (l2s_stem path) template_tail,
  text_eq_refl,
  take_end (l2s_stem path) template_tail,
)

letter_bounds :
    (k : ℕ)
    → k < 7
    → let c : ℕ = elim (get_elem? mktemp_chars k) [ some c ↦ c | none ↦ 0 ] in
      (b'A' ≤ c) × (c ≤ b'G')
letter_bounds zero h = omega arith
letter_bounds (suc zero) h = omega arith
letter_bounds (suc (suc zero)) h = omega arith
letter_bounds (suc (suc (suc zero))) h = omega arith
letter_bounds (suc (suc (suc (suc zero)))) h = omega arith
letter_bounds (suc (suc (suc (suc (suc zero))))) h = omega arith
letter_bounds (suc (suc (suc (suc (suc (suc zero)))))) h = omega arith
letter_bounds (suc (suc (suc (suc (suc (suc (suc k))))))) h = absurd (omega arith)

-- Whatever the random byte, the character that `HxMktemp` puts in is one of the first seven of its
-- alphabet, `A` to `G`.
pub mktemp_char_bounds : (r : ℕ) → (b'A' ≤ mktemp_char r) × (mktemp_char r ≤ b'G')
unfolding mktemp_char
mktemp_char_bounds r = letter_bounds (r % 7) (omega arith)
