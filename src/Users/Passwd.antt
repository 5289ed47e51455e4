-- ===== src/Users/Passwd.antt =====
-- The lookups of src/passwd.c. `file` is what `fopen("/etc/passwd", "r")` gives.
use hxroot.Sys.{Result, errs, gives, Errno}
use hxroot.Users.Streams.{to_pointer, Found, Answer, Opened, find_in}
use hxroot.Base.Words.{decimal_text}
use hxroot.Base.{ℕ, ◌==◌, Text, text_eq, none, some, ◌∷◌, ◌++◌, if◌then◌else◌, take}

pub record Passwd : Type 0 where
  pub pw_name : Text
  pub pw_passwd : Text
  pub pw_uid : ℕ
  pub pw_gid : ℕ
  pub pw_gecos : Text
  pub pw_dir : Text
  pub pw_shell : Text

unfoldable pub getpwnam_r : Text → Opened Passwd → Answer Passwd
unfolding find_in
getpwnam_r name file = find_in (λ pwd. text_eq pwd.pw_name name) file

unfoldable pub getpwuid_r : ℕ → Opened Passwd → Answer Passwd
unfolding find_in
getpwuid_r uid file = find_in (λ pwd. pwd.pw_uid == uid) file

unfoldable pub getpwnam : Text → Opened Passwd → Found Passwd
unfolding getpwnam_r to_pointer
getpwnam name file = to_pointer (getpwnam_r name file)

unfoldable pub getpwuid : ℕ → Opened Passwd → Found Passwd
unfolding getpwuid_r to_pointer
getpwuid uid file = to_pointer (getpwuid_r uid file)

-- What `getpw` prints, with both ids as `%d`.
unfoldable pub passwd_line : Passwd → Text
unfolding decimal_text
passwd_line pwd =
    pwd.pw_name
    ++ (b':'
        ∷ (pwd.pw_passwd
            ++ (b':'
                ∷ (decimal_text pwd.pw_uid
                    ++ (b':'
                        ∷ (decimal_text pwd.pw_gid
                            ++ (b':'
                                ∷ (pwd.pw_gecos
                                    ++ (b':' ∷ (pwd.pw_dir ++ (b':' ∷ pwd.pw_shell)))))))))))

-- `getpw`: the text in the buffer and 0, or -1 and `errno`. Of a longer line 255 bytes are written.
unfoldable pub getpw : ℕ → Opened Passwd → Result Text
unfolding getpwuid_r passwd_line
getpw uid file =
    let (ret, result) = getpwuid_r uid file in
    elim result [
      | none ↦ errs (Errno.errno ret)
      | some pwd ↦ if ret == 0 then gives (take 255 (passwd_line pwd)) else errs (Errno.errno ret)
    ]
