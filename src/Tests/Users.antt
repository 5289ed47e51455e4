-- ===== src/Tests/Users.antt =====
-- The databases of users and groups on examples.
use hxroot.Users.CursorLaws.{answers, to_answers, getpwent_r-setpwent}
use hxroot.Users.Cursor.{endpwent, at, setpwent}
use hxroot.Users.Group.{Group, getgrouplist}
use hxroot.Users.Laws.{IsFirst, getpwnam_r_iff}
use hxroot.Users.GroupLaws.{getgrouplist_lem}
use hxroot.Users.Streams.{Read, failed, entry, opens}
use hxroot.Users.Passwd.{getpwnam_r, Passwd}
use hxroot.Base.{ℕ, ◌≡◌, ◌↔◌, none, some, List, [], ◌∷◌, arith, Text, bytes, text_eq, refl}

abbrev user : Text → ℕ → Passwd
user name uid = record {
  pw_name = name;
  pw_passwd = bytes "x";
  pw_uid = uid;
  pw_gid = uid;
  pw_gecos = [];
  pw_dir = bytes "/";
  pw_shell = bytes "/bin/sh";
}

abbrev users : List (Read Passwd)
users = entry (user (bytes "a") 1) ∷ entry (user (bytes "b") 2) ∷ failed 34 ∷ []

abbrev group_of : Text → ℕ → List Text → Group
group_of name gid mems = record { gr_name = name; gr_gid = gid; gr_mem = mems }

abbrev groups : List (Read Group)
groups =
    entry (group_of (bytes "g") 5 (bytes "b" ∷ bytes "a" ∷ []))
    ∷ entry (group_of (bytes "k") 6 (bytes "b" ∷ []))
    ∷ entry (group_of (bytes "l") 7 (bytes "a" ∷ []))
    ∷ []

getpwnam_r_iff_example :
    (getpwnam_r (bytes "b") (opens users) ≡ (0, some (user (bytes "b") 2)))
    ↔ IsFirst (λ q. q.pw_name ≡ bytes "b") users (user (bytes "b") 2)
getpwnam_r_iff_example = getpwnam_r_iff (bytes "b") users (user (bytes "b") 2)

getgrouplist_lem_example :
    getgrouplist (bytes "a") 1 (0 ∷ 0 ∷ 9 ∷ []) 2 (opens groups) ≡ some (none, 3, 1 ∷ 5 ∷ 9 ∷ [])
unfolding text_eq
getgrouplist_lem_example = getgrouplist_lem (bytes "a") 1 2 (0 ∷ 0 ∷ 9 ∷ []) (omega arith) groups

getpwent_r-setpwent_example :
    (answers 4 (opens users) (setpwent (at users [])) ≡ (to_answers users, at users []))
    × (answers 4 (opens users) (endpwent (at users [])) ≡ (to_answers users, at users []))
getpwent_r-setpwent_example = getpwent_r-setpwent (opens users) users [] users refl
