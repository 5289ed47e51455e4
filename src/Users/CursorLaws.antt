-- ===== src/Users/CursorLaws.antt =====
-- What the enumeration of src/passwd.c promises.
use hxroot.Users.Streams.{Read, opens, entry, failed, end_of_file, Answer, Opened}
use hxroot.Users.Cursor.{getpwent_r, Cursor, setpwent, endpwent, shut, at}
use hxroot.Base.{ℕ, zero, suc, ◌≡◌, refl, ◌∙◌, none, some, List, [], ◌∷◌, length, ap}

-- The answers of several calls of `getpwent_r`, and the position behind them.
abbrev pub answers : {A : Type 0} → ℕ → Opened A → Cursor A → List (Answer A) × Cursor A
answers zero file c = ([], c)
answers (suc n) file c =
    let (a, c') = getpwent_r file c in let (more, c'') = answers n file c' in (a ∷ more, c'')

-- The answers to which these reads lead, with the one that the file is over.
abbrev pub to_answers : {A : Type 0} → List (Read A) → List (Answer A)
to_answers [] = (end_of_file, none) ∷ []
to_answers (entry a ∷ reads) = (0, some a) ∷ to_answers reads
to_answers (failed e ∷ reads) = (e, none) ∷ to_answers reads

module _ {A : Type 0} (file : Opened A) where
  answers-at :
      (all here : List (Read A))
      → answers (suc (length here)) file (at all here) ≡ (to_answers here, at all [])
  unfolding getpwent_r
  answers-at all [] = refl
  answers-at all (entry a ∷ here) =
      ap (λ (p : List (Answer A) × Cursor A). ((0, some a) ∷ p.0, p.1)) (answers-at all here)
  answers-at all (failed e ∷ here) =
      ap (λ (p : List (Answer A) × Cursor A). ((e, none) ∷ p.0, p.1)) (answers-at all here)

  answers-shut :
      (reads : List (Read A)) (n : ℕ)
      → file ≡ opens reads
      → answers (suc n) file shut ≡ answers (suc n) file (at reads reads)
  unfolding getpwent_r
  answers-shut reads n e = rw e refl

  -- After `setpwent`, wherever the file stood, the calls of `getpwent_r` answer all its reads in
  -- their order, and then that the file is over. After `endpwent` they do the same with the file
  -- that is opened anew.
  pub getpwent_r-setpwent :
      (all here reads : List (Read A))
      → file ≡ opens reads
      → (answers (suc (length all)) file (setpwent (at all here)) ≡ (to_answers all, at all []))
        × (answers (suc (length reads)) file (endpwent (at all here))
            ≡ (to_answers reads, at reads []))
  unfolding setpwent endpwent
  getpwent_r-setpwent all here reads e =
      (answers-at all all, answers-shut reads (length reads) e ∙ answers-at reads reads)
