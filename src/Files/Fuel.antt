-- ===== src/Files/Fuel.antt =====
-- How the bound on the recursion between src/open.c and src/stat.c matters.
use hxroot.Sys.Extends.{if-Extends, same-Extends, attempt-Extends, Extends}
use hxroot.Files.Readlink.{readlinkat}
use hxroot.Files.Names.{realpath}
use hxroot.Paths.{expand_path}
use hxroot.Files.Recursion.{open_file}
use hxroot.Files.Open.{open_with, override, creation_mode}
use hxroot.Files.Stat.{
  Buffers, count_file, count_of_target, s_islnk, at_fdcwd, o_rdwr, at_empty_path, read_link_count,
  at_symlink_nofollow, host_stat,
}
use hxroot.Base.Bits.{has_bit}
use hxroot.Sys.{is_eacces, M, Kernel, Op, host, word, exhausted}
use hxroot.Config.{Hx, is_fake_root}
use hxroot.Base.{ℕ, zero, suc, ◌+◌, ◌≡◌, ◌∙◌, ◌&&◌, ltb, Text, ap, arith, [], ◌∷◌, refl, ◌≢◌}
use hxroot.Files.Stat

module _ (K : Kernel) (h : Hx) (o o' : Text → ℕ → ℕ → M K.State ℕ)
    (ho : (path : Text) (flags mode : ℕ) → Extends (o path flags mode) (o' path flags mode)) where
  count_of_target-Extends :
      (target : Text) (bufs : Buffers)
      → Extends (count_of_target K h o target bufs) (count_of_target K h o' target bufs)
  unfolding count_of_target
  count_of_target-Extends target bufs =
      attempt-Extends {m = realpath K h target} same-Extends
        (λ rp.
          attempt-Extends (ho (count_file rp) o_rdwr 0o777) (λ fd. same-Extends)
            (λ e. same-Extends))
        (λ e. same-Extends)

  read_link_count-Extends :
      (dirfd : ℕ) (path new_path : Text) (bufs : Buffers) (flag : ℕ)
      → Extends
          (read_link_count K h o dirfd path new_path bufs flag)
          (read_link_count K h o' dirfd path new_path bufs flag)
  unfolding read_link_count
  read_link_count-Extends dirfd path new_path bufs flag =
      if-Extends (has_bit flag at_empty_path) same-Extends (
        attempt-Extends
          {m = host_stat K Op.fstatat (new_path ∷ []) (word dirfd ∷ word at_symlink_nofollow ∷ [])}
          same-Extends
          (λ st.
            if-Extends (s_islnk st.st_mode)
              (if-Extends (ltb 4096 st.st_size) same-Extends (
                attempt-Extends {m = readlinkat K h dirfd path (Stat.link_bufsize K h o st.st_size)}
                  same-Extends (λ filled. count_of_target-Extends _ bufs) (λ e. same-Extends)))
              same-Extends)
          (λ e. same-Extends))

  stat-Extends : (path : Text) → Extends (Stat.stat K h o path) (Stat.stat K h o' path)
  unfolding Stat.stat
  stat-Extends path =
      attempt-Extends {m = host_stat K Op.stat (expand_path h path ∷ []) []} same-Extends
        (λ st.
          if-Extends h.l2s
            (attempt-Extends (read_link_count-Extends at_fdcwd path _ _ 0) (λ bufs. same-Extends)
              (λ e. same-Extends))
            same-Extends)
        (λ e. same-Extends)

module _ (K : Kernel) (h : Hx) where
  open_file-Extends :
      (n : ℕ) (path : Text) (flags mode : ℕ)
      → Extends (open_file K h n path flags mode) (open_file K h (suc n) path flags mode)
  unfolding open_file open_with override
  open_file-Extends zero path flags mode = record { agrees = λ s r. absurd (r refl) }
  open_file-Extends (suc n) path flags mode =
      attempt-Extends
        {m = host K Op.open_file (expand_path h path ∷ [])
          (word flags ∷ word (creation_mode flags mode) ∷ [])}
        same-Extends (λ _. same-Extends)
        (λ e.
          if-Extends (is_eacces e && is_fake_root h)
            (attempt-Extends
              (stat-Extends K h (open_file K h n) (open_file K h (suc n)) (open_file-Extends n)
                path)
              (λ st. same-Extends) (λ e'. same-Extends))
            same-Extends)

  -- Fuel decides only whether an answer is reached: once `open` does not
  -- run out of it, any more fuel gives the same answer and leaves the host in the same state.
  pub open_file_more :
      (k n : ℕ) (path : Text) (flags mode : ℕ) (s : K.State)
      → (open_file K h n path flags mode s).0 ≢ exhausted
      → open_file K h (k + n) path flags mode s ≡ open_file K h n path flags mode s
  open_file_more zero n path flags mode s r =
      ap (λ i. open_file K h i path flags mode s) (omega arith)
  open_file_more (suc k) n path flags mode s r =
      let ih = open_file_more k n path flags mode s r in
      let e : suc k + n ≡ suc (k + n) = omega arith in
      ap (λ i. open_file K h i path flags mode s) e
      ∙ ((open_file-Extends (k + n) path flags mode).agrees s (λ q. r (rw ih at q)) ∙ ih)
