-- ===== src/Files/Laws.antt =====
-- What `readlink`, `chroot` and the link counts of src/stat.c promise, and where they do not.
use hxroot.Paths.Laws.{unexpand_path-expand_path}
use hxroot.Files.Readlink.{readlink, finish_readlink, less_one, exe_asked}
use hxroot.Files.Stat.{s_islnk, as_regular, put_count}
use hxroot.Files.Names.{chroot, realpath, ignoring}
use hxroot.Paths.{should_expand, expand_path, root_text, unexpand_path}
use hxroot.Sys.{ok, Call, call, word, Kernel, gives, Shape, Op, Stat}
use hxroot.Config.{Hx}
use hxroot.Base.{
  ℕ, ◌+◌, ◌%◌, ◌^◌, ◌<◌, ◌≡◌, refl, ◌≢◌, true, none, some, [], ◌∷◌, ◌++◌, arith, length, Text,
}

abbrev pub readlink_call : Hx → Text → ℕ → Call
readlink_call h path bufsize = record {
  op = Op.readlink;
  paths = expand_path h path ∷ [];
  args = word (less_one bufsize) ∷ [];
}

-- A link whose target the host holds rewritten is read as the target that was asked for, if the
-- host's text is not as long as the buffer, and the link is not `/proc/self/exe` with a faked
-- answer.
pub readlink-expand_path :
    (K : Kernel) (h : Hx) (path target : Text) (bufsize : ℕ) (s s1 : K.State)
    → exe_asked h path ≡ none
    → should_expand h target ≡ true
    → length (expand_path h target) ≢ bufsize
    → K.real Shape.text (readlink_call h path bufsize) s ≡ (gives (expand_path h target), s1)
    → readlink K h path bufsize s ≡ (ok (length target, target), s1)
unfolding readlink exe_asked finish_readlink call
readlink-expand_path K h path target bufsize s s1 x e ne r =
    ground (arith, unexpand_path-expand_path h target e)

-- Of a symbolic link with a mode of 16 bits that stands for a counted file, `stat` shows a regular file of the same
-- permissions; and the number of its links is always shown as 2, whatever the count file holds.
pub put_count_lem :
    (linkcount : ℕ) (st : Stat)
    → st.st_mode < 2 ^ 16
    → s_islnk st.st_mode ≡ true
    → ((put_count linkcount st).st_mode ≡ 0o100000 + st.st_mode % 2 ^ 12)
      × ((put_count linkcount st).st_nlink ≡ 2)
unfolding put_count as_regular
put_count_lem linkcount st lt e = (ground arith, refl)

abbrev pub realpath_call : Text → Call
realpath_call path = record { op = Op.realpath; paths = path ∷ []; args = [] }

-- Of a path that is rewritten, and is so again when it has been, `chroot` asks the host with the
-- root put before it twice, once by itself and once in its call of `realpath`; and the new root
-- is the resolved path without the old root.
pub chroot_lem :
    (K : Kernel) (h : Hx) (path r : Text) (s s1 : K.State)
    → should_expand h path ≡ true
    → should_expand h (root_text h.root ++ path) ≡ true
    → K.real Shape.text (realpath_call (root_text h.root ++ (root_text h.root ++ path))) s
      ≡ (gives r, s1)
    → (chroot K h (some path) s).0 ≡ ok (record h { root = some (unexpand_path h r) })
unfolding chroot realpath ignoring call expand_path
chroot_lem K h path r s s1 e f g = rw (e, f, g) (ground arith)
