-- ===== src/Base/Strings.antt =====
-- C strings as lists of byte values, without the final null byte, and the string functions of libc
-- that the code calls on them.
use Prim.Native.Char.{code}
use Prim.Native.String.{String}
use Prim.Native.Nat.{ℕ, ◌≤◌}
use mathlib.Core.Path.{◌≡◌, refl, ap₂}
use mathlib.Core.Logic.{◌↔◌}
use mathlib.Core.Bool.{Bool, true, false, ◌&&◌}
use mathlib.Core.List.{List, [], ◌∷◌, ◌++◌}
use native.Mathlib.Omega.{arith}
use hxroot.Base.Tests.{◌==◌, ==_refl, ==_iff, and-true_left, and-true_right}
use hxroot.Base.Lists.{length, drop}

abbrev pub Text : Type 0
Text = List ℕ

-- The bytes of an ASCII literal.
abbrev pub bytes : String → Text
bytes String.[] = []
bytes (String.◌∷◌ c s) = code c ∷ bytes s

-- `strcmp(a, b) == 0`
unfoldable pub text_eq : Text → Text → Bool
text_eq [] [] = true
text_eq [] (b ∷ bs) = false
text_eq (a ∷ cs) [] = false
text_eq (a ∷ cs) (b ∷ bs) = (a == b) && text_eq cs bs

-- `strncmp(s, p, strlen(p)) == 0`
unfoldable pub starts_with : Text → Text → Bool
starts_with s [] = true
starts_with [] (b ∷ bs) = false
starts_with (a ∷ cs) (b ∷ bs) = (a == b) && starts_with cs bs

pub text_eq_refl : (s : Text) → text_eq s s ≡ true
unfolding text_eq
text_eq_refl [] = refl
text_eq_refl (a ∷ s) = rw (==_refl a, text_eq_refl s)

pub text_eq→eq : (s t : Text) → text_eq s t ≡ true → s ≡ t
unfolding text_eq
text_eq→eq [] [] h = refl
text_eq→eq [] (b ∷ t) h = cc
text_eq→eq (a ∷ s) [] h = cc
text_eq→eq (a ∷ s) (b ∷ t) h =
    ap₂ ◌∷◌ ((==_iff a b).0 (and-true_left _ _ h)) (text_eq→eq s t (and-true_right _ _ h))

pub text_eq_iff : (s t : Text) → (text_eq s t ≡ true) ↔ (s ≡ t)
text_eq_iff s t = (text_eq→eq s t, λ e. rw e (text_eq_refl t))

pub starts_with-append : (p s : Text) → starts_with (p ++ s) p ≡ true
unfolding starts_with
starts_with-append [] s = refl
starts_with-append (a ∷ p) s = rw (==_refl a, starts_with-append p s)

-- A prefix splits the text.
pub starts_with→eq : (s p : Text) → starts_with s p ≡ true → s ≡ p ++ drop (length p) s
unfolding starts_with
starts_with→eq s [] h = refl
starts_with→eq [] (b ∷ p) h = cc
starts_with→eq (a ∷ s) (b ∷ p) h =
    ap₂ ◌∷◌ ((==_iff a b).0 (and-true_left _ _ h)) (starts_with→eq s p (and-true_right _ _ h))

pub starts_with-length : (s p : Text) → starts_with s p ≡ true → length p ≤ length s
unfolding starts_with
starts_with-length s [] h = omega arith
starts_with-length [] (b ∷ p) h = cc
starts_with-length (a ∷ s) (b ∷ p) h = omega (arith, starts_with-length s p (and-true_right _ _ h))
