-- ===== src/Wrap/Dirs.antt =====
-- Wrappers that hand their path arguments on rewritten: src/mkdir.c, src/mkfifo.c, src/getcwd.c, src/unlink.c, src/link.c, src/opendir.c, src/scandir.c, src/setmntent.c, src/statvfs.c, src/open.c.
use hxroot.Base.{ℕ, [], ◌∷◌, Text}
use hxroot.Config.{Hx}
use hxroot.Paths.{expand_path}
use hxroot.Sys.{M, Op, word, str, Kernel, host}

module _ (K : Kernel) (h : Hx) where
  -- src/mkdir.c
  unfoldable pub mkdir : Text → ℕ → M K.State ℕ
  mkdir path mode = host K Op.mkdir (expand_path h path ∷ []) (word mode ∷ [])

  -- src/mkdir.c
  unfoldable pub mkdirat : ℕ → Text → ℕ → M K.State ℕ
  mkdirat fd path mode = host K Op.mkdirat (expand_path h path ∷ []) (word fd ∷ word mode ∷ [])

  -- src/mkfifo.c
  unfoldable pub mkfifo : Text → ℕ → M K.State ℕ
  mkfifo path mode = host K Op.mkfifo (expand_path h path ∷ []) (word mode ∷ [])

  -- src/mkfifo.c
  unfoldable pub mkfifoat : ℕ → Text → ℕ → M K.State ℕ
  mkfifoat dirfd path mode =
      host K Op.mkfifoat (expand_path h path ∷ []) (word dirfd ∷ word mode ∷ [])

  -- src/getcwd.c
  unfoldable pub chdir : Text → M K.State ℕ
  chdir path = host K Op.chdir (expand_path h path ∷ []) []

  -- src/unlink.c
  unfoldable pub rmdir : Text → M K.State ℕ
  rmdir path = host K Op.rmdir (expand_path h path ∷ []) []

  -- src/link.c
  unfoldable pub symlink : Text → Text → M K.State ℕ
  symlink target linkpath =
      host K Op.symlink (expand_path h target ∷ expand_path h linkpath ∷ []) []

  -- src/link.c
  unfoldable pub symlinkat : Text → ℕ → Text → M K.State ℕ
  symlinkat target newdirfd linkpath =
      host K Op.symlinkat (expand_path h target ∷ expand_path h linkpath ∷ []) (word newdirfd ∷ [])

  -- src/opendir.c
  unfoldable pub opendir : Text → M K.State ℕ
  opendir name = host K Op.opendir (expand_path h name ∷ []) []

  -- src/scandir.c
  unfoldable pub scandir : Text → ℕ → ℕ → ℕ → M K.State ℕ
  scandir dirp namelist filter_fn compar =
      host K Op.scandir (expand_path h dirp ∷ [])
        (word namelist ∷ word filter_fn ∷ word compar ∷ [])

  -- src/scandir.c
  unfoldable pub scandirat : ℕ → Text → ℕ → ℕ → ℕ → M K.State ℕ
  scandirat dirfd dirp namelist filter_fn compar =
      host K Op.scandirat (expand_path h dirp ∷ [])
        (word dirfd ∷ word namelist ∷ word filter_fn ∷ word compar ∷ [])

  -- src/setmntent.c
  unfoldable pub setmntent : Text → Text → M K.State ℕ
  setmntent path kind = host K Op.setmntent (expand_path h path ∷ []) (str kind ∷ [])

  -- src/statvfs.c
  unfoldable pub statfs : Text → ℕ → M K.State ℕ
  statfs path buf = host K Op.statfs (expand_path h path ∷ []) (word buf ∷ [])

  -- src/statvfs.c
  unfoldable pub statvfs : Text → ℕ → M K.State ℕ
  statvfs path buf = host K Op.statvfs (expand_path h path ∷ []) (word buf ∷ [])

  -- src/open.c
  unfoldable pub creat : Text → ℕ → M K.State ℕ
  creat path mode = host K Op.creat (expand_path h path ∷ []) (word mode ∷ [])

  -- src/open.c
  unfoldable pub freopen : Text → Text → ℕ → M K.State ℕ
  freopen path mode stream =
      host K Op.freopen (expand_path h path ∷ []) (str mode ∷ word stream ∷ [])
