-- ===== src/Users/Laws.antt =====
-- What the lookups by name and by id promise.
use hxroot.Users.Group.{getgrnam_r, Group, getgrgid_r}
use hxroot.Users.Streams.{opens, entry, find_entry, Read, failed}
use hxroot.Users.Passwd.{getpwuid_r, Passwd, getpwnam_r}
use hxroot.Users.Shadow.{getspnam_r, Spwd}
use hxroot.Base.{
  ℕ, ◌≡◌, ◌↔◌, inl, inr, Bool, true, some, List, [], ◌∷◌, arith, ◌==◌, ==_iff, Bool-cases, Text,
  text_eq, text_eq_iff,
}
use mathlib.Core.Path.{subst}

-- The entries of `reads` up to its first failed read, `a` being the first that matches.
pub data IsFirst {A : Type 0} (P : A → Type 0) : List (Read A) → A → Type 0 where
  this : {a : A} {reads : List (Read A)} → P a → IsFirst P (entry a ∷ reads) a
  later :
      {a b : A} {reads : List (Read A)}
      → ¬ (P b)
      → IsFirst P reads a
      → IsFirst P (entry b ∷ reads) a

module _ {A : Type 0} (p : A → Bool) (P : A → Type 0) (decides : (a : A) → (p a ≡ true) ↔ P a) where
  find_entry-IsFirst :
      (reads : List (Read A)) (a : A) → find_entry p reads ≡ (0, some a) → IsFirst P reads a
  unfolding find_entry
  find_entry-IsFirst [] a h = absurd (ground arith)
  find_entry-IsFirst (failed e ∷ reads) a h = absurd (ground arith)
  find_entry-IsFirst (entry b ∷ reads) a h = elim (Bool-cases (p b)) [
    | inl hit ↦
        let same : b ≡ a = ground arith in
        subst (λ x. IsFirst P (entry b ∷ reads) x) same (this ((decides b).0 hit))
    | inr miss ↦ later (λ q. cc ((decides b).1 q)) (find_entry-IsFirst reads a (ground arith))
  ]

  IsFirst-find_entry :
      {reads : List (Read A)} {a : A} → IsFirst P reads a → find_entry p reads ≡ (0, some a)
  unfolding find_entry
  IsFirst-find_entry (this {a} q) = rw ((decides a).1 q)
  IsFirst-find_entry (later {b} q r) = elim (Bool-cases (p b)) [
    | inl hit ↦ absurd (q ((decides b).0 hit))
    | inr miss ↦ rw miss (IsFirst-find_entry r)
  ]

  find_entry_iff :
      (reads : List (Read A)) (a : A) → (find_entry p reads ≡ (0, some a)) ↔ IsFirst P reads a
  find_entry_iff reads a = (find_entry-IsFirst reads a, IsFirst-find_entry)

-- `getpwnam_r` succeeds with exactly the first entry of that name, among the entries that come
-- before any failed read.
pub getpwnam_r_iff :
    (name : Text) (reads : List (Read Passwd)) (pwd : Passwd)
    → (getpwnam_r name (opens reads) ≡ (0, some pwd)) ↔ IsFirst (λ q. q.pw_name ≡ name) reads pwd
unfolding getpwnam_r
getpwnam_r_iff name reads pwd =
    find_entry_iff (λ q. text_eq q.pw_name name) (λ q. q.pw_name ≡ name)
      (λ q. text_eq_iff q.pw_name name) reads pwd

-- `getpwuid_r` succeeds with exactly the first entry of that user id.
pub getpwuid_r_iff :
    (uid : ℕ) (reads : List (Read Passwd)) (pwd : Passwd)
    → (getpwuid_r uid (opens reads) ≡ (0, some pwd)) ↔ IsFirst (λ q. q.pw_uid ≡ uid) reads pwd
unfolding getpwuid_r
getpwuid_r_iff uid reads pwd =
    find_entry_iff (λ q. q.pw_uid == uid) (λ q. q.pw_uid ≡ uid) (λ q. ==_iff q.pw_uid uid) reads pwd

-- `getgrnam_r` succeeds with exactly the first entry of that name, among the entries that come
-- before any failed read.
pub getgrnam_r_iff :
    (name : Text) (reads : List (Read Group)) (grp : Group)
    → (getgrnam_r name (opens reads) ≡ (0, some grp)) ↔ IsFirst (λ g. g.gr_name ≡ name) reads grp
unfolding getgrnam_r
getgrnam_r_iff name reads grp =
    find_entry_iff (λ g. text_eq g.gr_name name) (λ g. g.gr_name ≡ name)
      (λ g. text_eq_iff g.gr_name name) reads grp

-- `getgrgid_r` succeeds with exactly the first entry of that group id.
pub getgrgid_r_iff :
    (gid : ℕ) (reads : List (Read Group)) (grp : Group)
    → (getgrgid_r gid (opens reads) ≡ (0, some grp)) ↔ IsFirst (λ g. g.gr_gid ≡ gid) reads grp
unfolding getgrgid_r
getgrgid_r_iff gid reads grp =
    find_entry_iff (λ g. g.gr_gid == gid) (λ g. g.gr_gid ≡ gid) (λ g. ==_iff g.gr_gid gid) reads grp

-- `getspnam_r` succeeds with exactly the first entry of that name, among the entries that come
-- before any failed read.
pub getspnam_r_iff :
    (name : Text) (reads : List (Read Spwd)) (sp : Spwd)
    → (getspnam_r name (opens reads) ≡ (0, some sp)) ↔ IsFirst (λ q. q.sp_namp ≡ name) reads sp
unfolding getspnam_r
getspnam_r_iff name reads sp =
    find_entry_iff (λ q. text_eq q.sp_namp name) (λ q. q.sp_namp ≡ name)
      (λ q. text_eq_iff q.sp_namp name) reads sp
