-- ===== src/Links/Release.antt =====
-- What `HxL2sUnlink` of src/unlink.c does, read off the log of its host calls.
use hxroot.Sys.Discipline.{returns, Released, locked-Released, returns-bind, returns-host}
use hxroot.Sys.Log.{logged}
use hxroot.Files.Recursion.{open_file}
use hxroot.Files.Stat.{read_count, o_rdwr}
use hxroot.Links.Unlink.{l2s_unlink, release}
use hxroot.Links.Counts.{count_down}
use hxroot.Paths.{expand_path}
use hxroot.Sys.{word, Call, M, host, Op, Kernel, call, ok, ◌>>=◌, return}
use hxroot.Config.{Hx}
use hxroot.Base.{ℕ, ◌≡◌, true, List, [], ◌∷◌, arith, Text, refl}

abbrev pub unlink_call : Hx → Text → Call
unlink_call h path = record { op = Op.unlink; paths = expand_path h path ∷ []; args = [] }

abbrev pub unlinkat_call : Hx → ℕ → Text → Call
unlinkat_call h realfd path = record {
  op = Op.unlinkat;
  paths = expand_path h path ∷ [];
  args = word realfd ∷ word 0 ∷ [];
}

module _ (K : Kernel) (h : Hx) (n : ℕ) (link linkfile : Text) (realfd : ℕ) (realfile : Text) where
  unlink_body : ℕ → ℕ → M K.State ℕ
  unlink_body fd _ = read_count K fd >>= λ linkcount.
      release K h n fd (count_down linkcount) link linkfile >>= λ _.
      host K Op.unlinkat (expand_path h realfile ∷ []) (word realfd ∷ word 0 ∷ []) >>= λ _. return 0

  release-returns : (fd c : ℕ) (s : K.State) → returns (release K h n fd c link linkfile s).0 ≡ true
  unfolding release call
  release-returns fd c s = ground arith

  read_count-returns : (fd : ℕ) (s : K.State) → returns (read_count K fd s).0 ≡ true
  unfolding read_count call
  read_count-returns fd s = ground arith

  unlink_body-returns : (fd : ℕ) (s : K.State) → returns (unlink_body fd fd s).0 ≡ true
  unfolding unlink_body
  unlink_body-returns fd s = returns-bind (read_count K fd) _ s (read_count-returns fd s) λ c t.
      returns-bind (release K h n fd (count_down c) link linkfile) _ t
        (release-returns fd (count_down c) t)
        λ _ t'.
          returns-bind (host K Op.unlinkat _ _) _ t' (returns-host K Op.unlinkat _ _ t') λ _ _. refl

module _ (K : Kernel) (h : Hx) (n fd : ℕ) (link linkfile : Text) (realfd : ℕ) (realfile : Text)
    (s : (logged K).State) (l : List Call) (k : K.State) where
  -- Once the count file is open, `HxL2sUnlink` ends with the descriptor closed, on every branch, and
  -- with the lock released before that wherever the lock was got.
  pub l2s_unlink-Released :
      open_file (logged K) h n linkfile o_rdwr 0 s ≡ (ok fd, (l, k))
      → Released fd l (l2s_unlink (logged K) h n link linkfile realfd realfile s).1.0
  unfolding l2s_unlink unlink_body
  l2s_unlink-Released e =
      locked-Released K fd (open_file (logged K) h n linkfile o_rdwr 0)
        (unlink_body (logged K) h n link linkfile realfd realfile) s l k e
        (unlink_body-returns (logged K) h n link linkfile realfd realfile fd)
