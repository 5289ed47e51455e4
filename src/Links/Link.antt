-- ===== src/Links/Link.antt =====
-- `HxLink2symlink`, `link` and `linkat` of src/link.c.
use hxroot.Base.{ℕ, not, ◌||◌, [], ◌∷◌, ◌==◌, if◌then◌else◌, Text}
use hxroot.Config.{Hx}
use hxroot.Paths.{expand_path}
use hxroot.Sys.{Errno, is_enoent, M, return, throw, abort, attempt, ◌>>=◌, word, Op, Kernel, host}
use hxroot.Files.Names.{realpath}
use hxroot.Files.Stat.{at_fdcwd, count_file}
use hxroot.Links.Names.{l2s_name, mktemp}
use hxroot.Links.Counts.{l2s_create, l2s_increment}
use hxroot.Links.Unlink.{f_ok}
use hxroot.Links.Rename.{rename}
use hxroot.Wrap.Meta.{access}
use hxroot.Wrap.Dirs.{symlink}

module _ (K : Kernel) (h : Hx) (n : ℕ) where
  -- The branch for a file that has a count file already; `rp` is its resolved path.
  unfoldable pub add_link : Text → Text → M K.State ℕ
  add_link rp newpath =
      l2s_increment K h n (count_file rp) >>= λ _. symlink K h rp newpath >>= λ _. return 0

  -- The branch for a file that is no link yet.
  unfoldable pub first_link : Text → Text → Text → M K.State ℕ
  first_link rp oldpath newpath = mktemp K (l2s_name rp) >>= λ hardlink.
      l2s_create K h n (count_file hardlink) >>= λ _. rename K h n oldpath hardlink >>= λ _.
      symlink K h hardlink oldpath >>= λ _. symlink K h hardlink newpath >>= λ _. return 0

  -- `HxLink2symlink`, from `realpath` on
  unfoldable pub link_resolved : Text → Text → M K.State ℕ
  unfolding add_link first_link
  link_resolved oldpath newpath = realpath K h oldpath >>= λ rp.
      attempt (access K h (count_file rp) f_ok) (λ _. add_link rp newpath)
        (λ e. if is_enoent e then first_link rp oldpath newpath else throw e)

  unfoldable pub link_2_symlink : Text → Text → M K.State ℕ
  unfolding link_resolved
  link_2_symlink oldpath newpath =
      attempt (access K h newpath f_ok) (λ _. throw Errno.eexist)
        (λ e. if is_enoent e then link_resolved oldpath newpath else throw e)

  unfoldable pub link : Text → Text → M K.State ℕ
  unfolding link_2_symlink
  link oldpath newpath =
      if h.l2s
      then link_2_symlink oldpath newpath
      else host K Op.link (expand_path h oldpath ∷ expand_path h newpath ∷ []) []

  unfoldable pub linkat : ℕ → Text → ℕ → Text → ℕ → M K.State ℕ
  unfolding link_2_symlink
  linkat olddirfd oldpath newdirfd newpath flag =
      if h.l2s
      then (if not (olddirfd == at_fdcwd) || not (newdirfd == at_fdcwd)
          then abort
          else if flag == 0
          then link_2_symlink oldpath newpath
          else abort)
      else host K Op.linkat (expand_path h oldpath ∷ expand_path h newpath ∷ [])
          (word olddirfd ∷ word newdirfd ∷ word flag ∷ [])
