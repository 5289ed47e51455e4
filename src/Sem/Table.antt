-- ===== src/Sem/Table.antt =====
-- The table of semaphore sets of src/sysvsem.c: an id is a place in it. The lock around it is the
-- matter of `Futex`.
use hxroot.Base.{
  ℕ, suc, Option, none, some, List, [], ◌∷◌, ◌++◌, ◌==◌, if◌then◌else◌, length, get_elem?, set,
  replicate, ◌/◌, take,
}

-- `struct HxSetMap` without its lock: `len` is the length of the list; `none` is a null pointer.
abbrev pub SetMap : Type 0 → Type 0
SetMap A = List (Option A)

-- The loop for a null entry, with `idx` counting from 0. Past the end it reads one entry before it
-- tests the index; the value there does not matter to the result.
unfoldable pub first_free : {A : Type 0} → SetMap A → ℕ
first_free [] = 0
first_free (none ∷ sets) = 0
first_free (some a ∷ sets) = suc (first_free sets)

-- The table after the first test: 128 entries where there was none.
unfoldable pub started : {A : Type 0} → SetMap A → SetMap A
started sets = if length sets == 0 then replicate 128 none else sets

-- The table after the second: twice the length where it is full. `ret + SetMap.len` counts bytes,
-- so the zeros start at an eighth of the old length, and `junk` is what stands behind them.
unfoldable pub grown : {A : Type 0} → SetMap A → SetMap A → SetMap A
unfolding first_free
grown sets junk =
    if first_free sets == length sets
    then take (length sets / 8) sets ++ (replicate (length sets) none ++ junk)
    else sets

-- `AddSetToMap`: the index, and the table.
unfoldable pub add_set : {A : Type 0} → SetMap A → SetMap A → A → ℕ × SetMap A
unfolding started grown
add_set sets junk addr =
    let idx = first_free (started sets) in (idx, set (grown (started sets) junk) idx (some addr))

-- `RetrieveSetFromMap`, for an index that is not negative.
unfoldable pub retrieve_set : {A : Type 0} → SetMap A → ℕ → Option A
retrieve_set sets idx = elim (get_elem? sets idx) [ none ↦ none | some found ↦ found ]
