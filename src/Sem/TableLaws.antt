-- ===== src/Sem/TableLaws.antt =====
-- What the table of semaphore sets promises.
use hxroot.Sem.Table.{retrieve_set, SetMap, first_free, add_set, started, grown}
use hxroot.Base.{
  ℕ, zero, suc, ◌≤◌, ◌<◌, ◌≡◌, refl, Option, none, some, [], ◌∷◌, ◌++◌, arith, ◌==◌, length,
  replicate, ◌≢◌, false, set, get_elem?-set_self, get_elem?-set_ne, sym, ◌+◌, ◌/◌, ◌∙◌, true, take,
  length-take, ◌⊎◌, inl, inr, if◌then◌else◌, ==_refl, Bool-cases,
}

suc_not_zero : (n : ℕ) → (suc n == 0) ≡ false
suc_not_zero n = ground arith

equal_test : (m n : ℕ) → m ≡ n → (m == n) ≡ true
equal_test m n e = ground arith

not_full : (m n : ℕ) → m ≢ n → (m == n) ≡ false
not_full m n ne = ground arith

module _ {A : Type 0} where
  retrieve_set-first_free : (sets : SetMap A) → retrieve_set sets (first_free sets) ≡ none
  unfolding retrieve_set first_free
  retrieve_set-first_free [] = refl
  retrieve_set-first_free (none ∷ sets) = refl
  retrieve_set-first_free (some a ∷ sets) = retrieve_set-first_free sets

  first_free_le : (sets : SetMap A) → first_free sets ≤ length sets
  unfolding first_free
  first_free_le [] = omega arith
  first_free_le (none ∷ sets) = omega arith
  first_free_le (some a ∷ sets) = omega (arith, first_free_le sets)

  set-here :
      (sets : SetMap A) (i : ℕ) (a : A)
      → i < length sets
      → retrieve_set (set sets i (some a)) i ≡ some a
  unfolding retrieve_set
  set-here sets i a lt = rw (retrieve_set, get_elem?-set_self sets i (some a) lt) refl

  set-elsewhere :
      (sets : SetMap A) (i j : ℕ) (v : Option A)
      → j ≢ i
      → retrieve_set (set sets i v) j ≡ retrieve_set sets j
  unfolding retrieve_set
  set-elsewhere sets i j v ne =
      rw (retrieve_set, get_elem?-set_ne sets i j v (λ q. ne (sym q))) refl

  replicate-retrieve_set : (m j : ℕ) → retrieve_set {A = A} (replicate m none) j ≡ none
  unfolding retrieve_set
  replicate-retrieve_set zero j = refl
  replicate-retrieve_set (suc m) zero = refl
  replicate-retrieve_set (suc m) (suc j) = replicate-retrieve_set m j

  started-retrieve_set :
      (sets : SetMap A) (j : ℕ) → retrieve_set (started sets) j ≡ retrieve_set sets j
  unfolding started
  started-retrieve_set [] j = replicate-retrieve_set 128 j ∙ sym (replicate-retrieve_set 0 j)
  started-retrieve_set (x ∷ sets) j = rw (suc_not_zero (length sets)) refl

  found_at :
      (sets : SetMap A) (i j : ℕ) (a : A)
      → i < length (started sets)
      → (((j == i) ≡ true) ⊎ ((j == i) ≡ false))
      → retrieve_set (set (started sets) i (some a)) j
        ≡ (if j == i then some a else retrieve_set sets j)
  found_at sets i j a lt (inl e) =
      let q : j ≡ i = ground arith in rw (e, q) (set-here (started sets) i a lt)
  found_at sets i j a lt (inr e) =
      let ne : j ≢ i = λ q. cc (rw (q, ==_refl i) at e) in
      rw e (set-elsewhere (started sets) i j (some a) ne ∙ started-retrieve_set sets j)

  -- With a null entry left in the table, a set that is added gets an id that no set had before, and is
  -- found under it; under every other id the same is found as before, or nothing as before.
  pub add_set-retrieve_set :
      (sets junk : SetMap A) (a : A) (j : ℕ)
      → first_free (started sets) ≢ length (started sets)
      → (retrieve_set sets (add_set sets junk a).0 ≡ none)
        × (retrieve_set (add_set sets junk a).1 j
            ≡ (if j == (add_set sets junk a).0 then some a else retrieve_set sets j))
  unfolding add_set grown
  add_set-retrieve_set sets junk a j room =
      let here = first_free (started sets) in
      let unchanged = not_full here (length (started sets)) room in
      let inside : here < length (started sets) =
        omega (arith, first_free_le (started sets), room) in
      (
        sym (started-retrieve_set sets here) ∙ retrieve_set-first_free (started sets),
        rw unchanged (found_at sets here j a inside (Bool-cases (j == here))),
      )

  retrieve_set-nones :
      (front junk : SetMap A) (m j : ℕ)
      → length front ≤ j
      → j < length front + m
      → retrieve_set (front ++ (replicate m none ++ junk)) j ≡ none
  unfolding retrieve_set
  retrieve_set-nones [] junk zero j le lt = absurd (omega arith)
  retrieve_set-nones [] junk (suc m) zero le lt = refl
  retrieve_set-nones [] junk (suc m) (suc j) le lt =
      retrieve_set-nones [] junk m j (omega arith) (omega arith)
  retrieve_set-nones (x ∷ front) junk m zero le lt = absurd (omega arith)
  retrieve_set-nones (x ∷ front) junk m (suc j) le lt =
      retrieve_set-nones front junk m j (omega arith) (omega arith)

  started_cons : (x : Option A) (sets : SetMap A) → started (x ∷ sets) ≡ x ∷ sets
  unfolding started
  started_cons x sets = rw (suc_not_zero (length sets)) refl

  grown_full :
      (sets junk : SetMap A)
      → first_free sets ≡ length sets
      → grown sets junk ≡ take (length sets / 8) sets ++ (replicate (length sets) none ++ junk)
  unfolding grown
  grown_full sets junk full = rw (equal_test (first_free sets) (length sets) full) refl

  -- Adding a set to a full table loses others: every id from an eighth of the old length to the old
  -- length is answered with null afterwards.
  pub add_set_full :
      (x : Option A) (sets junk : SetMap A) (a : A) (j : ℕ)
      → first_free (x ∷ sets) ≡ length (x ∷ sets)
      → length (x ∷ sets) / 8 ≤ j
      → j < length (x ∷ sets)
      → retrieve_set (add_set (x ∷ sets) junk a).1 j ≡ none
  unfolding add_set
  add_set_full x sets junk a j full le lt =
      let size = length-take (length (x ∷ sets) / 8) (x ∷ sets) in
      let apart : j ≢ first_free (x ∷ sets) = λ q. absurd (omega (arith, q, full, lt)) in
      rw (started_cons x sets, grown_full (x ∷ sets) junk full)
        (set-elsewhere _ (first_free (x ∷ sets)) j (some a) apart
          ∙ retrieve_set-nones (take (length (x ∷ sets) / 8) (x ∷ sets)) junk (length (x ∷ sets)) j
              (omega (arith, size)) (omega (arith, size)))
