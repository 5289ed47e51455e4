-- ===== src/Ids/Owner.antt =====
-- src/chown.c
use hxroot.Wrap.Meta.{access, faccessat}
use hxroot.Files.Stat.{at_fdcwd, at_symlink_nofollow}
use hxroot.Links.Unlink.{f_ok}
use hxroot.Paths.{expand_path}
use hxroot.Sys.{M, Kernel, return, Op, host, word}
use hxroot.Config.{is_fake_root, Hx}
use hxroot.Base.{ℕ, [], ◌∷◌, if◌then◌else◌, Text}

module _ (K : Kernel) (h : Hx) where
  unfoldable pub chown : Text → ℕ → ℕ → M K.State ℕ
  chown path owner group =
      if is_fake_root h
      then access K h path f_ok
      else host K Op.chown (expand_path h path ∷ []) (word owner ∷ word group ∷ [])

  unfoldable pub fchown : ℕ → ℕ → ℕ → M K.State ℕ
  fchown fd owner group =
      if is_fake_root h
      then return 0
      else host K Op.fchown [] (word fd ∷ word owner ∷ word group ∷ [])

  unfoldable pub lchown : Text → ℕ → ℕ → M K.State ℕ
  lchown path owner group =
      if is_fake_root h
      then faccessat K h at_fdcwd path f_ok at_symlink_nofollow
      else host K Op.lchown (expand_path h path ∷ []) (word owner ∷ word group ∷ [])

  unfoldable pub fchownat : ℕ → Text → ℕ → ℕ → ℕ → M K.State ℕ
  fchownat fd path owner group flag =
      if is_fake_root h
      then faccessat K h fd path f_ok flag
      else host K Op.fchownat (expand_path h path ∷ [])
          (word fd ∷ word owner ∷ word group ∷ word flag ∷ [])
