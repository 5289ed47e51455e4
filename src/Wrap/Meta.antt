-- ===== src/Wrap/Meta.antt =====
-- Wrappers that hand their path arguments on rewritten: src/access.c, src/chmod.c, src/utime.c.
use hxroot.Base.{ℕ, [], ◌∷◌, Text}
use hxroot.Config.{Hx}
use hxroot.Paths.{expand_path}
use hxroot.Sys.{M, Op, word, Kernel, host}

module _ (K : Kernel) (h : Hx) where
  -- src/access.c
  unfoldable pub access : Text → ℕ → M K.State ℕ
  access path mode = host K Op.access (expand_path h path ∷ []) (word mode ∷ [])

  -- src/access.c
  unfoldable pub faccessat : ℕ → Text → ℕ → ℕ → M K.State ℕ
  faccessat dirfd path mode flags =
      host K Op.faccessat (expand_path h path ∷ []) (word dirfd ∷ word mode ∷ word flags ∷ [])

  -- src/access.c
  unfoldable pub euidaccess : Text → ℕ → M K.State ℕ
  euidaccess path mode = host K Op.euidaccess (expand_path h path ∷ []) (word mode ∷ [])

  -- src/chmod.c
  unfoldable pub chmod : Text → ℕ → M K.State ℕ
  chmod path mode = host K Op.chmod (expand_path h path ∷ []) (word mode ∷ [])

  -- src/chmod.c
  unfoldable pub lchmod : Text → ℕ → M K.State ℕ
  lchmod path mode = host K Op.lchmod (expand_path h path ∷ []) (word mode ∷ [])

  -- src/chmod.c
  unfoldable pub fchmodat : ℕ → Text → ℕ → ℕ → M K.State ℕ
  fchmodat fd path mode flag =
      host K Op.fchmodat (expand_path h path ∷ []) (word fd ∷ word mode ∷ word flag ∷ [])

  -- src/utime.c
  unfoldable pub utime : Text → ℕ → M K.State ℕ
  utime path times = host K Op.utime (expand_path h path ∷ []) (word times ∷ [])

  -- src/utime.c
  unfoldable pub utimes : Text → ℕ → M K.State ℕ
  utimes path times = host K Op.utimes (expand_path h path ∷ []) (word times ∷ [])

  -- src/utime.c
  unfoldable pub lutimes : Text → ℕ → M K.State ℕ
  lutimes path times = host K Op.lutimes (expand_path h path ∷ []) (word times ∷ [])

  -- src/utime.c
  unfoldable pub utimensat : ℕ → Text → ℕ → ℕ → M K.State ℕ
  utimensat dirfd path times flags =
      host K Op.utimensat (expand_path h path ∷ []) (word dirfd ∷ word times ∷ word flags ∷ [])
