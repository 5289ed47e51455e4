-- ===== src/Users/Streams.antt =====
-- A database file as the wrappers see it: the results of its successive reads by `fgetpwent_r`,
-- `fgetgrent_r` or `fgetspent_r`, which are functions of libc.
use hxroot.Base.{ℕ, Bool, Option, none, some, List, [], ◌∷◌, ◌==◌, if◌then◌else◌}

-- One read: the next entry with result 0, or another result, such as `ERANGE`, and no entry.
pub data Read (A : Type 0) : Type 0 where
  entry : A → Read A
  failed : ℕ → Read A

-- What `fopen` gives: a stream of reads, or a null pointer with this `errno`.
pub data Opened (A : Type 0) : Type 0 where
  opens : List (Read A) → Opened A
  refuses : ℕ → Opened A

-- The result of every read at the end of the file: `ENOENT`
abbrev pub end_of_file : ℕ
end_of_file = 2

-- A returned number, and the entry behind `*result` unless that is null.
abbrev pub Answer : Type 0 → Type 0
Answer A = ℕ × Option A

-- The loop of the lookups: read on while the result is 0 and the entry does not match.
unfoldable pub find_entry : {A : Type 0} → (A → Bool) → List (Read A) → Answer A
find_entry p [] = (end_of_file, none)
find_entry p (failed e ∷ reads) = (e, none)
find_entry p (entry a ∷ reads) = let rest = find_entry p reads in if p a then (0, some a) else rest

unfoldable pub find_in : {A : Type 0} → (A → Bool) → Opened A → Answer A
unfolding find_entry
find_in p (opens reads) = find_entry p reads
find_in p (refuses e) = (e, none)

-- The functions without `_r`: a result other than 0 is stored in `errno` and gives a null pointer.
abbrev pub Found : Type 0 → Type 0
Found A = Option A × Option ℕ

unfoldable pub to_pointer : {A : Type 0} → Answer A → Found A
to_pointer (ret, result) = if ret == 0 then (result, none) else (none, some ret)
