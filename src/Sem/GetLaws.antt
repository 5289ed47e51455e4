-- ===== src/Sem/GetLaws.antt =====
-- The ids that `semget` of src/sysvsem.c gives.
use hxroot.Sem.Sets.{semmsl}
use hxroot.Base.Bits.{has_bit}
use hxroot.Base.Int.{ℤ, pos, ltb_ℤ}
use hxroot.Sys.{Kernel, ok, aborted, Outcome, exhausted, return, fail, resume, M, throw}
use hxroot.Base.{
  ℕ, ◌≡◌, ◌≢◌, some, length, refl, inl, inr, ◌&&◌, ◌||◌, Bool-cases, none, ◌==◌, if◌then◌else◌,
}
use hxroot.Sem.Get.{semget, map_set, ipc_creat}
use hxroot.Sem.Table.{SetMap, retrieve_set, first_free, started, add_set}
use hxroot.Sem.TableLaws.{add_set-retrieve_set}

module _ {S A B : Type 0} (m : M S A) (f : A → B) (s s' : S) (v : B) where
  bound_ok :
      (p : Outcome A × S)
      → m s ≡ p
      → resume (λ a. return (f a)) throw p ≡ (ok v, s')
      → (a : A) × (m s ≡ (ok a, s')) × (f a ≡ v)
  bound_ok (ok a, t) h e = let w : t ≡ s' = cc in let x : f a ≡ v = cc in (a, rw w at h, x)
  bound_ok (fail x, t) h e = cc
  bound_ok (aborted, t) h e = cc
  bound_ok (exhausted, t) h e = cc

module _ (K : Kernel) (sets junk : SetMap ℕ) (key : ℕ) (nsem : ℤ) (flags : ℕ) (s s' : K.State) where
  -- What a `semget` that succeeds has done: mapped the set, and added it to the table.
  semget_ok :
      (id : ℕ) (after : SetMap ℕ)
      → semget K sets junk key nsem flags s ≡ (ok (id, after), s')
      → (addr : ℕ) × (map_set K key nsem flags s ≡ (ok addr, s'))
        × (add_set sets junk addr ≡ (id, after))
  unfolding semget
  semget_ok id after e =
      let bad = has_bit flags ipc_creat && (ltb_ℤ nsem (pos 0) || ltb_ℤ (pos semmsl) nsem) in
      elim (Bool-cases bad) [
        | inl q ↦ cc (rw q at e)
        | inr q ↦
            bound_ok (map_set K key nsem flags) (add_set sets junk) s s' (id, after) _ refl
              (rw q at e)
      ]

  -- While the table, or the one of 128 null entries that takes the place of an empty table, has a
  -- null entry, a `semget` that succeeds has mapped a set and gives an id under which nothing was
  -- found before: now this set is found there, and under every other id what was found before.
  pub semget-retrieve_set :
      (id j : ℕ) (after : SetMap ℕ)
      → first_free (started sets) ≢ length (started sets)
      → semget K sets junk key nsem flags s ≡ (ok (id, after), s')
      → (addr : ℕ) × (map_set K key nsem flags s ≡ (ok addr, s'))
        × (retrieve_set sets id ≡ none)
        × (retrieve_set after j ≡ (if j == id then some addr else retrieve_set sets j))
  semget-retrieve_set id j after room ok_ =
      let (addr, m, q) = semget_ok id after ok_ in
      let (unused, others) = add_set-retrieve_set sets junk addr j room in
      (addr, m, rw q at unused, rw q at others)
