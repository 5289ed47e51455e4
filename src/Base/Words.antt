-- ===== src/Base/Words.antt =====
-- Words of a text: `strtok_r`, `strstr`, and decimal numbers.
use Prim.Native.Nat.{ℕ, zero, suc, ◌+◌, ◌-◌, ◌/◌, ◌%◌, ◌^◌}
use mathlib.Core.Path.{◌≡◌, refl, ap}
use mathlib.Core.Bool.{Bool, true, false, ◌||◌}
use hxroot.Base.Lists.{All, replicate}
use mathlib.Core.List.{List, [], ◌∷◌, ◌++◌}
use hxroot.Base.Tests.{ltb, ◌==◌, if◌then◌else◌}
use hxroot.Base.Strings.{Text, starts_with}

-- The text before the first byte that satisfies the test.
unfoldable pub before : (ℕ → Bool) → Text → Text
before p [] = []
before p (c ∷ s) = let rest = before p s in if p c then [] else c ∷ rest

-- The text from the first byte on that satisfies the test.
unfoldable pub from : (ℕ → Bool) → Text → Text
from p [] = []
from p (c ∷ s) = if p c then c ∷ s else from p s

-- `while(*s == ' ') s++`
unfoldable pub skip_spaces : Text → Text
skip_spaces [] = []
skip_spaces (c ∷ s) = if c == b' ' then skip_spaces s else c ∷ s

-- One more byte of the word that stands first, if it has begun; the list that is passed holds the
-- words behind, its first being what has been read of the present one.
abbrev pub add_byte : ℕ → List Text → List Text
add_byte c [] = (c ∷ []) ∷ []
add_byte c (w ∷ ws) = (c ∷ w) ∷ ws

-- The pieces between separators, empty ones included.
unfoldable pub split : (ℕ → Bool) → Text → List Text
split p [] = [] ∷ []
split p (c ∷ s) = let rest = split p s in if p c then [] ∷ rest else add_byte c rest

abbrev pub nonempty : List Text → List Text
nonempty [] = []
nonempty ([] ∷ ws) = nonempty ws
nonempty ((c ∷ w) ∷ ws) = (c ∷ w) ∷ nonempty ws

-- The tokens of `strtok_r`.
unfoldable pub tokens : (ℕ → Bool) → Text → List Text
unfolding split
tokens p s = nonempty (split p s)

-- `strstr(s, t) != NULL`
unfoldable pub contains : Text → Text → Bool
contains [] t = starts_with [] t
contains (c ∷ s) t = starts_with (c ∷ s) t || contains s t

-- The decimal digits of a number in front of `rest`, at most `n` of them.
unfoldable pub digits : ℕ → ℕ → Text → Text
digits zero x rest = rest
digits (suc n) x rest =
    let more = digits n (x / 10) ((b'0' + x % 10) ∷ rest) in
    if ltb x 10 then (b'0' + x) ∷ rest else more

-- `%d`, of an int given by its bit pattern.
unfoldable pub decimal_text : ℕ → Text
unfolding digits
decimal_text x = if ltb x (2 ^ 31) then digits 10 x [] else b'-' ∷ digits 10 (2 ^ 32 - x) []

-- No byte of the text satisfies the test.
abbrev pub Clean : (ℕ → Bool) → Text → Type 0
Clean q w = All (λ c. q c ≡ false) w

module _ (q : ℕ → Bool) where
  pub before-append :
      (s : Text) (d : ℕ) (t : Text) → Clean q s → q d ≡ true → before q (s ++ (d ∷ t)) ≡ s
  unfolding before
  before-append [] d t a e = rw e refl
  before-append (c ∷ s) d t (a, b) e = rw a (ap (◌∷◌ c) (before-append s d t b e))

  pub before-Clean : (s : Text) → Clean q s → before q s ≡ s
  unfolding before
  before-Clean [] a = refl
  before-Clean (c ∷ s) (a, b) = rw a (ap (◌∷◌ c) (before-Clean s b))

  pub from-append :
      (s : Text) (d : ℕ) (t : Text) → Clean q s → q d ≡ true → from q (s ++ (d ∷ t)) ≡ d ∷ t
  unfolding from
  from-append [] d t a e = rw e refl
  from-append (c ∷ s) d t (a, b) e = rw a (from-append s d t b e)

  pub from-Clean : (s : Text) → Clean q s → from q s ≡ []
  unfolding from
  from-Clean [] a = refl
  from-Clean (c ∷ s) (a, b) = rw a (from-Clean s b)

pub skip_spaces-append : (n : ℕ) (s : Text) → skip_spaces (replicate n b' ' ++ s) ≡ skip_spaces s
unfolding skip_spaces
skip_spaces-append zero s = refl
skip_spaces-append (suc n) s = skip_spaces-append n s
