-- ===== src/Users/Shadow.antt =====
-- The lookups and the lock of src/shadow.c. `file` is what `fopen("/etc/shadow", "r")` gives.
use hxroot.Users.Streams.{Opened, find_in, Answer, Found, to_pointer}
use hxroot.Base.{Text, text_eq, ℕ}

-- `struct spwd`: the name, and `rest` for the other fields.
pub record Spwd : Type 0 where
  pub sp_namp : Text
  pub rest : Text

unfoldable pub getspnam_r : Text → Opened Spwd → Answer Spwd
unfolding find_in
getspnam_r name file = find_in (λ spbuf. text_eq spbuf.sp_namp name) file

unfoldable pub getspnam : Text → Opened Spwd → Found Spwd
unfolding getspnam_r to_pointer
getspnam name file = to_pointer (getspnam_r name file)

-- `lckpwdf` and `ulckpwdf` lock nothing.
unfoldable pub lckpwdf : ℕ
lckpwdf = 0

unfoldable pub ulckpwdf : ℕ
ulckpwdf = 0
