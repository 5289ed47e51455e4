-- ===== src/Users/Group.antt =====
-- The lookups of src/group.c. `file` is what `fopen("/etc/group", "r")` gives.
use hxroot.Users.Streams.{
  opens, Found, find_in, entry, Read, Opened, to_pointer, failed, Answer, refuses,
}
use hxroot.Base.{
  ℕ, ◌+◌, not, ◌&&◌, Option, none, some, List, [], ◌∷◌, ltb, ◌==◌, if◌then◌else◌, map_option,
  length, set, Text, text_eq,
}

pub record Group : Type 0 where
  pub gr_name : Text
  pub gr_gid : ℕ
  pub gr_mem : List Text

unfoldable pub getgrnam_r : Text → Opened Group → Answer Group
unfolding find_in
getgrnam_r name file = find_in (λ grp. text_eq grp.gr_name name) file

unfoldable pub getgrgid_r : ℕ → Opened Group → Answer Group
unfolding find_in
getgrgid_r gid file = find_in (λ grp. grp.gr_gid == gid) file

unfoldable pub getgrnam : Text → Opened Group → Found Group
unfolding getgrnam_r to_pointer
getgrnam name file = to_pointer (getgrnam_r name file)

unfoldable pub getgrgid : ℕ → Opened Group → Found Group
unfolding getgrgid_r to_pointer
getgrgid gid file = to_pointer (getgrgid_r gid file)

-- `i` and the array `groups`, in the loop of `getgrouplist`. `none` is a write out of the array.
abbrev pub Collected : Type 0
Collected = Option (ℕ × List ℕ)

abbrev pub store : List ℕ → ℕ → ℕ → Option (List ℕ)
store groups i gid = if ltb i (length groups) then some (set groups i gid) else none

-- `if(i < *ngroups) groups[i] = gid; i += 1;`
unfoldable pub collect : ℕ → ℕ → ℕ × List ℕ → Collected
collect ngroups gid (i, groups) =
    if ltb i ngroups
    then map_option (λ groups'. (i + 1, groups')) (store groups i gid)
    else some (i + 1, groups)

abbrev pub then_collect : Collected → (ℕ × List ℕ → Collected) → Collected
then_collect none f = none
then_collect (some acc) f = f acc

module _ (user : Text) (group ngroups : ℕ) where
  -- The loop over `grp.gr_mem`.
  unfoldable pub collect_members : ℕ → List Text → ℕ × List ℕ → Collected
  unfolding collect
  collect_members gid [] acc = some acc
  collect_members gid (mem ∷ mems) acc =
      then_collect
        (if text_eq mem user && not (gid == group) then collect ngroups gid acc else some acc)
        (λ acc'. collect_members gid mems acc')

  -- The loop over the file.
  unfoldable pub collect_groups : List (Read Group) → ℕ × List ℕ → Collected
  unfolding collect_members
  collect_groups [] acc = some acc
  collect_groups (failed e ∷ reads) acc = some acc
  collect_groups (entry grp ∷ reads) acc =
      then_collect (collect_members grp.gr_gid grp.gr_mem acc) (λ acc'. collect_groups reads acc')

-- The returned number (`none` for -1), `*ngroups` and the array.
abbrev pub GroupList : Type 0
GroupList = Option ℕ × ℕ × List ℕ

unfoldable pub getgrouplist : Text → ℕ → List ℕ → ℕ → Opened Group → Option GroupList
unfolding collect_groups
getgrouplist user group groups ngroups (refuses e) = some (some 0, 0, groups)
getgrouplist user group groups ngroups (opens reads) =
    map_option (λ (i, groups'). (if ltb ngroups i then none else some i, i, groups'))
      (then_collect (collect ngroups group (0, groups))
        (λ acc. collect_groups user group ngroups reads acc))
