-- ===== src/Users/GroupLaws.antt =====
-- What `getgrouplist` of src/group.c promises.
use hxroot.Users.Group.{collect, getgrouplist, collect_members, Group, collect_groups}
use hxroot.Users.Streams.{Read, entry, opens, failed}
use hxroot.Base.{
  ℕ, zero, suc, ◌≤◌, ◌<◌, ◌≡◌, refl, sym, ap, not, ◌&&◌, none, some, List, [], ◌∷◌, ◌++◌,
  append-nil, arith, ltb, ◌==◌, if◌then◌else◌, length, set, take, Text, text_eq, ◌∙◌, inl, inr,
  true, append_assoc, ltb→lt, lt→ltb, Bool-cases, length-append, take_of_le,
}

-- The groups of `user` besides `group`, as often as the file names the user in them, up to the
-- first failed read.
module _ (user : Text) (group : ℕ) where
  abbrev pub named_in : ℕ → List Text → List ℕ
  named_in gid [] = []
  named_in gid (mem ∷ mems) =
      let rest = named_in gid mems in
      if text_eq mem user && not (gid == group) then gid ∷ rest else rest

  abbrev pub memberships : List (Read Group) → List ℕ
  memberships [] = []
  memberships (failed e ∷ reads) = []
  memberships (entry grp ∷ reads) = named_in grp.gr_gid grp.gr_mem ++ memberships reads

-- `bs` with its beginning overwritten by `cs`.
abbrev pub overlay : List ℕ → List ℕ → List ℕ
overlay [] bs = bs
overlay (c ∷ cs) [] = []
overlay (c ∷ cs) (b ∷ bs) = c ∷ overlay cs bs

length-overlay : (cs bs : List ℕ) → length (overlay cs bs) ≡ length bs
length-overlay [] bs = refl
length-overlay (c ∷ cs) [] = refl
length-overlay (c ∷ cs) (b ∷ bs) = ap suc (length-overlay cs bs)

set-overlay :
    (cs bs : List ℕ) (v : ℕ)
    → length cs < length bs
    → set (overlay cs bs) (length cs) v ≡ overlay (cs ++ (v ∷ [])) bs
set-overlay [] [] v h = absurd (omega arith)
set-overlay [] (b ∷ bs) v h = refl
set-overlay (c ∷ cs) [] v h = absurd (omega arith)
set-overlay (c ∷ cs) (b ∷ bs) v h = ap (◌∷◌ c) (set-overlay cs bs v (omega arith))

take-nil : (n : ℕ) → take n (let xs : List ℕ = [] in xs) ≡ []
take-nil zero = refl
take-nil (suc n) = refl

take-snoc_lt :
    (n : ℕ) (cs : List ℕ) (v : ℕ) → length cs < n → take n (cs ++ (v ∷ [])) ≡ take n cs ++ (v ∷ [])
take-snoc_lt zero cs v h = absurd (omega arith)
take-snoc_lt (suc zero) [] v h = refl
take-snoc_lt (suc (suc n)) [] v h = refl
take-snoc_lt (suc n) (c ∷ cs) v h = ap (◌∷◌ c) (take-snoc_lt n cs v (omega arith))

take-snoc_le : (n : ℕ) (cs : List ℕ) (v : ℕ) → n ≤ length cs → take n (cs ++ (v ∷ [])) ≡ take n cs
take-snoc_le zero cs v h = refl
take-snoc_le (suc n) [] v h = absurd (omega arith)
take-snoc_le (suc n) (c ∷ cs) v h = ap (◌∷◌ c) (take-snoc_le n cs v (omega arith))

module _ (user : Text) (group n : ℕ) (groups : List ℕ) (room : n ≤ length groups) where
  -- The state of the loop when it has met `cs`.
  abbrev met : List ℕ → ℕ × List ℕ
  met cs = (length cs, overlay (take n cs) groups)

  collect-met : (cs : List ℕ) (v : ℕ) → collect n v (met cs) ≡ some (met (cs ++ (v ∷ [])))
  unfolding collect
  collect-met cs v = elim (Bool-cases (ltb (length cs) n)) [
    | inl fits ↦
        let lt : length cs < n = ltb→lt _ _ fits in
        let full : take n cs ≡ cs = take_of_le n cs (omega arith) in
        let inside : ltb (length cs) (length (overlay cs groups)) ≡ true =
          lt→ltb _ _ (omega (arith, length-overlay cs groups)) in
        rw
          (
            fits,
            full,
            inside,
            set-overlay cs groups v (omega arith),
            take-snoc_lt n cs v lt,
            full,
            length-append cs (v ∷ []),
          )
          refl
    | inr over ↦ rw (over, take-snoc_le n cs v (ground arith), length-append cs (v ∷ [])) refl
  ]

  collect_members-met :
      (gid : ℕ) (mems : List Text) (cs : List ℕ)
      → collect_members user group n gid mems (met cs)
        ≡ some (met (cs ++ named_in user group gid mems))
  unfolding collect_members
  collect_members-met gid [] cs = ap (λ (x : List ℕ). some (met x)) (sym (append-nil cs))
  collect_members-met gid (mem ∷ mems) cs =
      elim (Bool-cases (text_eq mem user && not (gid == group))) [
        | inl hit ↦
            rw (hit, collect-met cs gid)
              (collect_members-met gid mems (cs ++ (gid ∷ []))
                ∙ ap (λ (x : List ℕ). some (met x)) (append_assoc cs (gid ∷ []) _))
        | inr miss ↦ rw miss (collect_members-met gid mems cs)
      ]

  collect_groups-met :
      (reads : List (Read Group)) (cs : List ℕ)
      → collect_groups user group n reads (met cs) ≡ some (met (cs ++ memberships user group reads))
  unfolding collect_groups
  collect_groups-met [] cs = ap (λ (x : List ℕ). some (met x)) (sym (append-nil cs))
  collect_groups-met (failed e ∷ reads) cs = ap (λ (x : List ℕ). some (met x)) (sym (append-nil cs))
  collect_groups-met (entry grp ∷ reads) cs = rw (collect_members-met grp.gr_gid grp.gr_mem cs) (
      collect_groups-met reads (cs ++ named_in user group grp.gr_gid grp.gr_mem)
      ∙ ap (λ (x : List ℕ). some (met x)) (append_assoc cs _ _))

  -- With an array of at least `*ngroups` elements, `getgrouplist` writes no element outside it. It
  -- stores the number of the user's groups, `group` itself first, in `*ngroups`; the array begins
  -- with as many of them as fit and is otherwise unchanged; and it returns the number, or -1 if
  -- they do not all fit.
  pub getgrouplist_lem :
      (reads : List (Read Group))
      → let all : List ℕ = group ∷ memberships user group reads in
        getgrouplist user group groups n (opens reads)
        ≡ some (
          if ltb n (length all) then none else some (length all),
          length all,
          overlay (take n all) groups,
        )
  unfolding getgrouplist
  getgrouplist_lem reads = rw (collect-first, collect_groups-met reads (group ∷ [])) refl
    where
      collect-first : collect n group (0, groups) ≡ some (met (group ∷ []))
      collect-first = rw (take-nil n) at (collect-met [] group)
