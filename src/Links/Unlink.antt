-- ===== src/Links/Unlink.antt =====
-- src/unlink.c, but for `rmdir`.
use hxroot.Base.{ℕ, ◌-◌, ◌/◌, ◌%◌, ◌^◌, Bool, [], ◌∷◌, ◌==◌, if◌then◌else◌, take, Text}
use hxroot.Config.{Hx}
use hxroot.Paths.{expand_path}
use hxroot.Sys.{is_enoent, is_einval, M, return, throw, attempt, ◌>>=◌, word, Op, Kernel, host}
use hxroot.Sys.Bracket.{with_fd, with_lock}
use hxroot.Files.Readlink.{Filled, readlink, readlinkat}
use hxroot.Files.Stat.{read_count, o_rdwr, at_fdcwd, count_file, c_string, path_max, lstat}
use hxroot.Files.Recursion.{open_file}
use hxroot.Links.Counts.{count_down, rewind, write_count}
use hxroot.Wrap.Meta.{access}
use hxroot.Wrap.Dirs.{rmdir}

-- `S_ISDIR`
abbrev pub s_isdir : ℕ → Bool
s_isdir mode = mode / 2 ^ 12 % 16 == 4

-- `F_OK`
abbrev pub f_ok : ℕ
f_ok = 0

module _ (K : Kernel) (h : Hx) (n : ℕ) where
  abbrev pub unlink_real : Text → M K.State ℕ
  unlink_real path = host K Op.unlink (expand_path h path ∷ []) []

  -- The branches on the new count: without links left the file and its count go.
  unfoldable pub release : ℕ → ℕ → Text → Text → M K.State ℕ
  unfolding rewind write_count
  release fd linkcount link linkfile =
      if linkcount == 0
      then (unlink_real link >>= λ _. unlink_real linkfile)
      else (rewind K fd >>= λ _. write_count K fd linkcount)

  -- `HxL2sUnlink`
  unfoldable pub l2s_unlink : Text → Text → ℕ → Text → M K.State ℕ
  unfolding with_fd with_lock read_count release
  l2s_unlink link linkfile realfd realfile = with_fd K (open_file K h n linkfile o_rdwr 0) (λ fd.
      with_lock K fd (λ _. read_count K fd >>= λ linkcount.
      release fd (count_down linkcount) link linkfile >>= λ _.
      host K Op.unlinkat (expand_path h realfile ∷ []) (word realfd ∷ word 0 ∷ []) >>= λ _.
      return 0))

  -- `rlbuf` as a string, after `rlbuf[ret] = '\0'`
  unfoldable pub link_text : Filled → Text
  unfolding c_string
  link_text filled = c_string (take filled.0 filled.1)

  -- What both wrappers do with the link text of the path, given what a plain removal does.
  unfoldable pub unlink_link : M K.State Filled → ℕ → Text → M K.State ℕ → M K.State ℕ
  unfolding l2s_unlink link_text
  unlink_link reading fd path plain =
      attempt reading
        (λ filled.
          let rl = link_text filled in
          attempt (access K h (count_file rl) f_ok) (λ _. l2s_unlink rl (count_file rl) fd path)
            (λ e. if is_enoent e then plain else throw e))
        (λ e. if is_einval e then plain else throw e)

  unfoldable pub unlink : Text → M K.State ℕ
  unfolding unlink_link
  unlink path =
      if h.l2s
      then unlink_link (readlink K h path (path_max - 1)) at_fdcwd path (unlink_real path)
      else unlink_real path

  unfoldable pub unlinkat : ℕ → Text → ℕ → M K.State ℕ
  unfolding unlink_link
  unlinkat fd path flag =
      let plain = host K Op.unlinkat (expand_path h path ∷ []) (word fd ∷ word flag ∷ []) in
      if h.l2s then unlink_link (readlinkat K h fd path (path_max - 1)) fd path plain else plain

  unfoldable pub remove : Text → M K.State ℕ
  unfolding unlink
  remove path = lstat K h (open_file K h n) path >>= λ st.
      if s_isdir st.st_mode then rmdir K h path else unlink path
