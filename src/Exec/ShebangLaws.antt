-- ===== src/Exec/ShebangLaws.antt =====
-- The first line of a script is read as it is written.
use hxroot.Base.{
  ℕ, zero, suc, ◌≡◌, refl, Bool, false, ◌||◌, Option, none, some, [], ◌∷◌, ◌++◌, ◌==◌, replicate,
  All-append, Text, bytes, append-nil, arith,
}
use hxroot.Base.Words.{
  Clean, before-append, from-append, skip_spaces-append, from-Clean, skip_spaces, before-Clean,
}
use hxroot.Exec.Shebang.{Script, parse_shebang, first_line, script_of}

-- The end of a line, and what ends the interpreter.
abbrev pub ends_line : ℕ → Bool
ends_line c = c == b'\n' || c == 0

abbrev pub is_space : ℕ → Bool
is_space c = c == b' '

spaces-Clean : (n : ℕ) → Clean ends_line (replicate n b' ')
spaces-Clean zero = tt
spaces-Clean (suc n) = (refl, spaces-Clean n)

-- A line with an argument, or with none behind the interpreter.
abbrev pub line_arg : ℕ → Option Text → Text
line_arg n none = []
line_arg n (some a) = b' ' ∷ (replicate n b' ' ++ a)

abbrev pub shebang_line : ℕ → ℕ → Script → Text
shebang_line m n script =
    bytes "#!" ++ (replicate m b' ' ++ (script.interp ++ line_arg n script.arg))

-- The argument, if there is one, does not begin with a space, and is all in the line.
abbrev pub PlainArg : Option Text → Type 0
PlainArg none = Unit
PlainArg (some []) = ⊥
PlainArg (some (c ∷ a)) = (is_space c ≡ false) × Clean ends_line (c ∷ a)

line-Clean : (n : ℕ) (arg : Option Text) → PlainArg arg → Clean ends_line (line_arg n arg)
line-Clean n none k = tt
line-Clean n (some []) k = absurd k
line-Clean n (some (c ∷ a)) k =
    (refl, All-append (λ c. ends_line c ≡ false) (replicate n b' ') (c ∷ a) (spaces-Clean n) k.1)

skip_spaces_word : (c : ℕ) (s : Text) → is_space c ≡ false → skip_spaces (c ∷ s) ≡ c ∷ s
unfolding skip_spaces
skip_spaces_word c s e = rw e refl

module _ (n c : ℕ) (i : Text) (k : Clean is_space (c ∷ i)) where
  script_of-line :
      (arg : Option Text)
      → PlainArg arg
      → script_of ((c ∷ i) ++ line_arg n arg) ≡ record { interp = c ∷ i; arg = arg }
  unfolding skip_spaces
  script_of-line none p =
      rw (append-nil i, before-Clean is_space (c ∷ i) k, from-Clean is_space (c ∷ i) k) refl
  script_of-line (some []) p = absurd p
  script_of-line (some (d ∷ a)) p =
      let t = replicate n b' ' ++ (d ∷ a) in
      rw
        (
          before-append is_space (c ∷ i) b' ' t k refl,
          from-append is_space (c ∷ i) b' ' t k refl,
          skip_spaces-append (suc n) (d ∷ a),
          skip_spaces_word d a p.0,
        )
        refl

  module _ (m : ℕ) (rest : Text) (l : Clean ends_line (c ∷ i)) where
    -- The interpreter and the argument are read off a line as they stand in it, however many spaces
    -- are before each, and whatever follows the line. The interpreter is not empty and holds no space,
    -- newline or null byte, the argument no newline or null byte, and it begins with no space.
    pub parse_shebang-first_line :
        (arg : Option Text)
        → PlainArg arg
        → parse_shebang
            (first_line (shebang_line m n (record { interp = c ∷ i; arg = arg }) ++ (b'\n' ∷ rest)))
          ≡ record { interp = c ∷ i; arg = arg }
    unfolding parse_shebang first_line
    parse_shebang-first_line arg p =
        let tail = line_arg n arg in
        let word_clean = All-append _ (c ∷ i) tail l (line-Clean n arg p) in
        let spaced =
          All-append _ (replicate m b' ') ((c ∷ i) ++ tail) (spaces-Clean m) word_clean in
        let sharp : Clean ends_line (bytes "#!") = ground arith in
        let clean : Clean ends_line (shebang_line m n (record { interp = c ∷ i; arg = arg })) =
          All-append _ (bytes "#!") (replicate m b' ' ++ ((c ∷ i) ++ tail)) sharp spaced in
        rw
          (
            before-append ends_line _ b'\n' rest clean refl,
            skip_spaces-append m ((c ∷ i) ++ tail),
            skip_spaces_word c (i ++ tail) k.0,
          )
          (script_of-line arg p)
