-- ===== src/Exec/SearchLaws.antt =====
-- How `execvpe` of src/exec.c goes through the directories of `PATH`.
use hxroot.Base.Words.{contains, split}
use hxroot.Sys.{M, lift, gives, is_eacces, Result, Errno, errs, ok, fail}
use hxroot.Base.{
  ℕ, ◌≡◌, inl, inr, Bool, false, ◌||◌, List, [], ◌∷◌, ◌++◌, arith, leb, if◌then◌else◌, Bool-cases,
  length, All, Text, refl, sym, ap, ◌∙◌, append-nil, ◌≤◌, ◌<◌, ltb, ◌==◌, bytes, true,
}
use hxroot.Exec.Run.{
  next_of, go_on, in_dir, search_dirs, after_failure, name_max, dir_limit, execvpe_with,
  search_file,
}

-- An `execve` that answers by the path alone, and keeps the paths that it is asked for, newest first.
abbrev pub asked : (Text → Result ℕ) → Text → List Text → List Text → M (List Text) ℕ
asked answer path argv envp log = lift (answer path, path ∷ log)

or_false : (b : Bool) → (b || false) ≡ b
or_false b = ground arith

or_assoc : (a b c : Bool) → (a || (b || c)) ≡ ((a || b) || c)
or_assoc a b c = ground arith

-- The errors behind which the next directory is tried.
abbrev pub is_passed : Errno → Bool
is_passed Errno.eacces = true
is_passed Errno.enoent = true
is_passed Errno.enotdir = true
is_passed _ = false

next_of_passed : (e : Errno) → is_passed e ≡ true → next_of e ≡ go_on (is_eacces e)
unfolding next_of
next_of_passed e h = ground arith

abbrev pub error_of : Result ℕ → List Errno → List Errno
error_of (gives v) xs = xs
error_of (errs e) xs = e ∷ xs

abbrev pub last_of : Errno → List Errno → Errno
last_of e [] = e
last_of e (x ∷ xs) = last_of x xs

abbrev pub denied : List Errno → Bool
denied [] = false
denied (x ∷ xs) = is_eacces x || denied xs

module _ (answer : Text → Result ℕ) (l : ℕ) (file : Text) where
  -- The errors of the directories that are short enough, and the paths that are tried.
  unfoldable pub errors : List Text → List Errno
  errors [] = []
  errors (d ∷ dirs) =
      let rest = errors dirs in
      if leb l (length d) then rest else error_of (answer (in_dir d file)) rest

  unfoldable pub visited : List Text → List Text → List Text
  visited [] log = log
  visited (d ∷ dirs) log = visited dirs (if leb l (length d) then log else in_dir d file ∷ log)

  -- The directory is too long, or its try fails with `EACCES`, `ENOENT` or `ENOTDIR`.
  abbrev pub Passed : Text → Type 0
  Passed d =
      leb l (length d) ≡ false
      → (e : Errno) × (answer (in_dir d file) ≡ errs e) × (is_passed e ≡ true)

  module _ (argv envp : List Text) where
    passed_try :
        (rest : Errno → Bool → M (List Text) ℕ) (path : Text) (e : Errno) (b : Bool)
        → next_of e ≡ go_on b
        → after_failure (asked answer) path argv envp rest e ≡ rest e b
    unfolding after_failure
    passed_try rest path e b h = rw (after_failure, h) refl

    search-Passed :
        (pre post : List Text) (e : Errno) (seen : Bool) (log : List Text)
        → All Passed pre
        → search_dirs (asked answer) l file argv envp (pre ++ post) e seen log
          ≡ search_dirs
              (asked answer)
              l
              file
              argv
              envp
              post
              (last_of e (errors pre))
              (seen || denied (errors pre))
              (visited pre log)
    unfolding search_dirs errors visited
    search-Passed [] post e seen log a = rw (or_false seen) refl
    search-Passed (d ∷ pre) post e seen log (a, b) = elim (Bool-cases (leb l (length d))) [
      | inl q ↦ rw q (search-Passed pre post e seen log b)
      | inr q ↦
          let (x, f, g) = a q in
          rw
            (
              q,
              f,
              passed_try _ (in_dir d file) x (is_eacces x) (next_of_passed x g),
              or_assoc seen (is_eacces x) (denied (errors pre)),
            )
            (search-Passed pre post x (seen || is_eacces x) (in_dir d file ∷ log) b)
    ]

    -- The first directory in which the file can be started is the last one that is tried, behind
    -- directories that are too long or fail with `EACCES`, `ENOENT` or `ENOTDIR`.
    pub search_dirs_first :
        (pre post : List Text) (d : Text) (v : ℕ) (e : Errno) (log : List Text)
        → All Passed pre
        → leb l (length d) ≡ false
        → answer (in_dir d file) ≡ gives v
        → search_dirs (asked answer) l file argv envp (pre ++ (d ∷ post)) e false log
          ≡ (ok v, in_dir d file ∷ visited pre log)
    unfolding search_dirs
    search_dirs_first pre post d v e log a q f =
        search-Passed pre (d ∷ post) e false log a ∙ rw (q, f) refl

    -- Where every directory is passed over, `EACCES` is reported if any try gave it, and else the error
    -- of the last try.
    pub search_dirs_none :
        (dirs : List Text) (e : Errno) (log : List Text)
        → All Passed dirs
        → search_dirs (asked answer) l file argv envp dirs e false log ≡ (
          fail (if denied (errors dirs) then Errno.eacces else last_of e (errors dirs)),
          visited dirs log,
        )
    unfolding search_dirs
    search_dirs_none dirs e log a =
        ap (λ ds. search_dirs (asked answer) l file argv envp ds e false log)
          (sym (append-nil dirs))
        ∙ search-Passed dirs [] e false log a

abbrev pub directories : Text → List Text
directories path = split (λ c. c == b':') path

-- A file name that is not empty or too long, and has no slash.
abbrev pub FileName : Text → Type 0
FileName file = (length file ≤ name_max) × (0 < length file) × (contains file (bytes "/") ≡ false)

execvpe_with-search :
    {S : Type 0} (run : Text → List Text → List Text → M S ℕ) (path file : Text)
    (argv envp : List Text)
    → FileName file
    → execvpe_with run path file argv envp
      ≡ search_dirs run (dir_limit path) file argv envp (directories path) Errno.enoent false
unfolding execvpe_with search_file
execvpe_with-search run path [] argv envp f = absurd (omega (arith, f.1))
execvpe_with-search run path (c ∷ file) argv envp f =
    let n : ltb name_max (length (c ∷ file)) ≡ false = ground arith in rw (f.2, n) refl

module _ (answer : Text → Result ℕ) (path file : Text) (argv envp log : List Text)
    (name : FileName file) where
  -- `execvpe` of a name without a slash starts the file in the first directory of `PATH` where that
  -- succeeds, and tries none behind it, if the directories before it are too long or fail with
  -- `EACCES`, `ENOENT` or `ENOTDIR`.
  pub execvpe_first :
      (pre post : List Text) (d : Text) (v : ℕ)
      → directories path ≡ pre ++ (d ∷ post)
      → All (Passed answer (dir_limit path) file) pre
      → leb (dir_limit path) (length d) ≡ false
      → answer (in_dir d file) ≡ gives v
      → execvpe_with (asked answer) path file argv envp log
        ≡ (ok v, in_dir d file ∷ visited answer (dir_limit path) file pre log)
  execvpe_first pre post d v e a q f =
      rw (execvpe_with-search (asked answer) path file argv envp name, e)
        (search_dirs_first answer (dir_limit path) file argv envp pre post d v Errno.enoent log a q
          f)

  -- Where every directory is passed over like this, `execvpe` fails after all of them were tried in
  -- order: with `EACCES` if any gave it, and else with the error of the last, or `ENOENT` for none.
  pub execvpe_none :
      All (Passed answer (dir_limit path) file) (directories path)
      → let tried = errors answer (dir_limit path) file (directories path) in
        execvpe_with (asked answer) path file argv envp log ≡ (
          fail (if denied tried then Errno.eacces else last_of Errno.enoent tried),
          visited answer (dir_limit path) file (directories path) log,
        )
  execvpe_none a = rw (execvpe_with-search (asked answer) path file argv envp name) (
      search_dirs_none answer (dir_limit path) file argv envp (directories path) Errno.enoent log a)
