-- ===== src/Users/Cursor.antt =====
-- The enumerations `get…ent_r`, `set…ent` and `end…ent` of src/passwd.c, src/group.c and
-- src/shadow.c, which read one file that stays open between calls.
use hxroot.Users.Streams.{
  entry, refuses, opens, Opened, end_of_file, Found, to_pointer, Answer, failed, Read,
}
use hxroot.Base.{none, some, List, [], ◌∷◌, Option}

-- `HxPwdFile`, `HxGrpFile` or `HxSpFile`: null, or a stream with what it reads from its beginning
-- and from its position.
pub data Cursor (A : Type 0) : Type 0 where
  shut : Cursor A
  at : (from_start from_here : List (Read A)) → Cursor A

-- One read at the position.
unfoldable pub read_entry : {A : Type 0} → List (Read A) → List (Read A) → Answer A × Cursor A
read_entry all [] = ((end_of_file, none), at all [])
read_entry all (failed e ∷ reads) = ((e, none), at all reads)
read_entry all (entry a ∷ reads) = ((0, some a), at all reads)

-- `getpwent_r`; `file` is what `fopen` gives if it is called. `getgrent_r` and `getspent_r` have the
-- same text.
unfoldable pub getpwent_r : {A : Type 0} → Opened A → Cursor A → Answer A × Cursor A
unfolding read_entry
getpwent_r file (at all here) = read_entry all here
getpwent_r (opens reads) shut = read_entry reads reads
getpwent_r (refuses e) shut = ((e, none), shut)

unfoldable pub getgrent_r : {A : Type 0} → Opened A → Cursor A → Answer A × Cursor A
unfolding read_entry
getgrent_r file (at all here) = read_entry all here
getgrent_r (opens reads) shut = read_entry reads reads
getgrent_r (refuses e) shut = ((e, none), shut)

unfoldable pub getspent_r : {A : Type 0} → Opened A → Cursor A → Answer A × Cursor A
unfolding read_entry
getspent_r file (at all here) = read_entry all here
getspent_r (opens reads) shut = read_entry reads reads
getspent_r (refuses e) shut = ((e, none), shut)

unfoldable pub getpwent : {A : Type 0} → Opened A → Cursor A → Found A × Cursor A
unfolding getpwent_r to_pointer
getpwent file c = let (answer, c') = getpwent_r file c in (to_pointer answer, c')

unfoldable pub getgrent : {A : Type 0} → Opened A → Cursor A → Found A × Cursor A
unfolding getgrent_r to_pointer
getgrent file c = let (answer, c') = getgrent_r file c in (to_pointer answer, c')

-- `getspent` reads by itself, with `fgetspent`: the reads of the file are those of that function, and
-- one that fails gives a null pointer.
unfoldable pub getspent : {A : Type 0} → Opened A → Cursor A → Option A × Cursor A
unfolding read_entry
getspent file (at all here) = let (answer, c) = read_entry all here in (answer.1, c)
getspent (opens reads) shut = let (answer, c) = read_entry reads reads in (answer.1, c)
getspent (refuses e) shut = (none, shut)

-- `setpwent`, `setgrent` and `setspent`
unfoldable pub setpwent : {A : Type 0} → Cursor A → Cursor A
setpwent shut = shut
setpwent (at all here) = at all all

unfoldable pub setgrent : {A : Type 0} → Cursor A → Cursor A
setgrent shut = shut
setgrent (at all here) = at all all

unfoldable pub setspent : {A : Type 0} → Cursor A → Cursor A
setspent shut = shut
setspent (at all here) = at all all

-- `endpwent`, `endgrent` and `endspent`
unfoldable pub endpwent : {A : Type 0} → Cursor A → Cursor A
endpwent c = shut

unfoldable pub endgrent : {A : Type 0} → Cursor A → Cursor A
endgrent c = shut

unfoldable pub endspent : {A : Type 0} → Cursor A → Cursor A
endspent c = shut
