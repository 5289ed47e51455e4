-- ===== src/Tests/Files.antt =====
-- Opening, reading links and `chroot` on examples.
use hxroot.Files.OpenLaws.{open_file-returns}
use hxroot.Sys.Discipline.{returns}
use hxroot.Config.{Hx}
use hxroot.Base.{inr}
use hxroot.Files.TempLaws.{mkstemps_lem}
use hxroot.Files.Socket.{bind, unix, unix_path_max}
use hxroot.Files.Temp.{mkstemps}
use hxroot.Files.SocketLaws.{bind_lem}
use hxroot.Files.Recursion.{stat}
use hxroot.Files.Recursion.{open_file}
use hxroot.Files.Readlink.{readlink, exe_asked}
use hxroot.Files.Laws.{readlink-expand_path}
use hxroot.Files.OpenLaws.{open_call, open_file-override_log, chmod_call}
use hxroot.Files.Open.{override_mode}
use hxroot.Files.Stat.{at_symlink_nofollow, at_fdcwd}
use hxroot.Paths.{excluded, should_expand, expand_path}
use hxroot.Sys.{Stat, call, Kernel, word, Errno, Call, Op, ok, errs, gives, host, fail}
use hxroot.Base.{
  ℕ, ◌+◌, ◌≡◌, refl, true, List, [], ◌∷◌, arith, ◌==◌, if◌then◌else◌, Text, bytes, starts_with,
  text_eq, ◌≤◌, ◌<◌, ◌⊎◌, false, length,
}
use hxroot.Sys.Log.{logged}
use hxroot.Tests.{jail, giving, a_stat, answer}

-- A host that refuses the first call with `EACCES`, and gives 4 to every other.
abbrev refusing : Kernel
refusing = record {
  State = ℕ;
  real = λ r c s. (if s == 0 then errs Errno.eacces else gives (answer 4 [] r), s + 1);
}

-- What the process that is root to itself sees of the file.
abbrev as_root : Stat
as_root = record a_stat { st_uid = 0; st_gid = 0 }

abbrev file : Text
file = bytes "/x"

abbrev stat_calls : List Call
stat_calls =
    record {
      op = Op.fstatat;
      paths = expand_path jail file ∷ [];
      args = word at_fdcwd ∷ word at_symlink_nofollow ∷ [];
    }
    ∷ record { op = Op.stat; paths = expand_path jail file ∷ []; args = [] }
    ∷ open_call jail file 2 0
    ∷ []

stat-as_root :
    stat (logged refusing) jail 1 file (open_call jail file 2 0 ∷ [], 1)
    ≡ (ok as_root, (stat_calls, 3))
unfolding hxroot.Files.Stat.stat call hxroot.Files.Stat.read_link_count
stat-as_root = refl

open_file-override_log_example :
    (open_file (logged refusing) jail 2 file 2 0 ([], 0)).1.0
    ≡ chmod_call jail file 0o100644
      ∷ open_call jail file 2 0
      ∷ chmod_call jail file (override_mode 2 0o100644)
      ∷ stat_calls
open_file-override_log_example =
    open_file-override_log refusing jail 1 file 2 0 [] stat_calls 0 1 3 4 as_root refl refl
      stat-as_root refl

readlink-expand_path_example :
    readlink (giving (bytes "/r/t")) jail file 100 0 ≡ (ok (2, bytes "/t"), 1)
unfolding exe_asked expand_path should_expand excluded starts_with text_eq
readlink-expand_path_example =
    readlink-expand_path (giving (bytes "/r/t")) jail file (bytes "/t") 100 0 1 refl refl
      (λ e. ground arith) refl

-- A host that makes this file.
abbrev making : Text → Kernel
making name = record { State = ℕ; real = λ r c s. (gives (answer 4 name r), s + 1) }

mkstemps_lem_example :
    mkstemps (making (bytes "/r/tABCDEF.c")) jail (bytes "/tXXXXXX.c") 2 0
    ≡ (ok (4, bytes "/tABCDEF.c"), 1)
unfolding should_expand excluded starts_with
mkstemps_lem_example =
    mkstemps_lem (making (bytes "/r/tABCDEF.c")) jail (bytes "/t") (bytes "ABCDEF") 0 1 refl
      (bytes ".c") refl refl

bind_lem_example :
    ((should_expand jail (bytes "/s") ≡ true)
      × (length (expand_path jail (bytes "/s")) < unix_path_max)
      × (bind refusing jail 3 (unix (bytes "/s")) 110 1
          ≡ host refusing Op.bind
              (expand_path jail (bytes "/s") ∷ [])
              (word 3 ∷ word (length (expand_path jail (bytes "/s")) + 2) ∷ [])
              1))
    ⊎ ((should_expand jail (bytes "/s") ≡ true)
        × (unix_path_max ≤ length (expand_path jail (bytes "/s")))
        × (bind refusing jail 3 (unix (bytes "/s")) 110 1 ≡ (fail Errno.e2big, 1)))
    ⊎ ((should_expand jail (bytes "/s") ≡ false)
        × (bind refusing jail 3 (unix (bytes "/s")) 110 1
            ≡ host refusing Op.bind (bytes "/s" ∷ []) (word 3 ∷ word 110 ∷ []) 1))
bind_lem_example = bind_lem refusing jail 3 110 (bytes "/s") 1

abbrev unlinked : Hx
unlinked = record jail { l2s = false }

open_file-returns_example : returns (open_file refusing unlinked 1 file 0 0 0).0 ≡ true
open_file-returns_example = open_file-returns refusing unlinked 0 file 0 0 0 (inr refl)
