-- ===== src/Paths.antt =====
-- The path translation of src/util.c: what a guest path is rewritten to before it is handed to the
-- host, and back.
pub mod Laws
pub mod Memory
pub mod MemoryLaws
use hxroot.Base.{
  ℕ, ◌+◌, Bool, true, false, ◌&&◌, ◌||◌, Option, none, some, List, [], ◌∷◌, ◌++◌, Text, length,
  drop, get_elem?, starts_with, ltb, ◌==◌, if◌then◌else◌,
}
use hxroot.Config.{Hx}

-- `s[i]`, where the final null byte is 0.
abbrev pub char_at : Text → ℕ → ℕ
char_at s i = elim (get_elem? s i) [ none ↦ 0 | some c ↦ c ]

abbrev pub is_none {ℓ} : {A : Type ℓ} → Option A → Bool
is_none none = true
is_none (some a) = false

-- The text of `HxRoot`; for a null pointer `HxRootLen` is 0, and no byte of it is read.
abbrev pub root_text : Option Text → Text
root_text none = []
root_text (some r) = r

-- The body of the loop over the binds: `prefix` equals `HxBinds[i]`.
unfoldable pub bind_matches : Text → Text → Bool
bind_matches path prefix =
    let lastchar = char_at path (length prefix) in
    if ltb (length path) (length prefix)
    then false
    else starts_with path prefix && (lastchar == b'/' || lastchar == 0)

unfoldable pub excluded : Text → List Text → Bool
unfolding bind_matches
excluded path [] = false
excluded path (b ∷ bs) = let rest = excluded path bs in if bind_matches path b then true else rest

-- `HxShouldExpand`
unfoldable pub should_expand : Hx → Text → Bool
should_expand h path =
    if is_none h.root
    then false
    else if char_at path 0 == b'/'
    then (if excluded path h.binds then false else true)
    else false

-- `HxExpandedLen`
unfoldable pub expanded_len : Hx → Text → ℕ
expanded_len h path =
    if should_expand h path then length (root_text h.root) + length path + 1 else 0

-- `HxExpandPath`: the text behind the returned pointer.
unfoldable pub expand_path : Hx → Text → Text
expand_path h path = if should_expand h path then root_text h.root ++ path else path

abbrev pub or_slash : Text → Text
or_slash [] = b'/' ∷ []
or_slash (c ∷ s) = c ∷ s

-- `HxUnexpandPath`: the text left in the buffer.
unfoldable pub unexpand_path : Hx → Text → Text
unexpand_path h path =
    if starts_with path (root_text h.root)
    then or_slash (drop (length (root_text h.root)) path)
    else path
