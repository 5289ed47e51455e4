-- ===== src/Links/Rename.antt =====
-- src/rename.c
use hxroot.Base.{ℕ, ◌^◌, Bool, not, ◌&&◌, ◌||◌, [], ◌∷◌, if◌then◌else◌, Text}
use hxroot.Base.Bits.{has_bit}
use hxroot.Config.{Hx}
use hxroot.Paths.{expand_path}
use hxroot.Sys.{is_enoent, M, return, throw, attempt, ◌>>=◌, word, Op, Kernel, host}
use hxroot.Files.Recursion.{stat}
use hxroot.Links.Unlink.{unlink}

-- `st.st_mode & S_IFLNK`, as a condition: one of the two bits of `S_IFLNK` is set.
abbrev pub meets_iflnk : ℕ → Bool
meets_iflnk mode = has_bit mode (2 ^ 13) || has_bit mode (2 ^ 15)

-- `RENAME_NOREPLACE`
abbrev pub rename_noreplace : ℕ
rename_noreplace = 1

module _ (K : Kernel) (h : Hx) (n : ℕ) where
  -- The block under `if(HxL2s)`, before the rename itself.
  unfoldable pub drop_destination : Text → M K.State ℕ
  drop_destination new =
      attempt (stat K h n new)
        (λ st.
          if meets_iflnk st.st_mode
          then attempt (unlink K h n new) return (λ e. if is_enoent e then return 0 else throw e)
          else return 0)
        (λ e. if is_enoent e then return 0 else throw e)

  unfoldable pub rename : Text → Text → M K.State ℕ
  unfolding drop_destination
  rename old new =
      let rename_real = host K Op.rename (expand_path h old ∷ expand_path h new ∷ []) [] in
      if h.l2s then (drop_destination new >>= λ _. rename_real) else rename_real

  unfoldable pub renameat : ℕ → Text → ℕ → Text → M K.State ℕ
  unfolding drop_destination
  renameat oldfd old newfd new =
      let renameat_real =
        host K Op.renameat (expand_path h old ∷ expand_path h new ∷ [])
          (word oldfd ∷ word newfd ∷ []) in
      if h.l2s then (drop_destination new >>= λ _. renameat_real) else renameat_real

  unfoldable pub renameat2 : ℕ → Text → ℕ → Text → ℕ → M K.State ℕ
  unfolding drop_destination
  renameat2 olddirfd oldpath newdirfd newpath flags =
      let renameat2_real =
        host K Op.renameat2 (expand_path h oldpath ∷ expand_path h newpath ∷ [])
          (word olddirfd ∷ word newdirfd ∷ word flags ∷ []) in
      if h.l2s && not (has_bit flags rename_noreplace)
      then (drop_destination newpath >>= λ _. renameat2_real)
      else renameat2_real
