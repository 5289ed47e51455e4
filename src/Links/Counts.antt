-- ===== src/Links/Counts.antt =====
-- `HxL2sCreate` and `HxL2sIncrement` of src/link.c: the count file of a linked file.
use hxroot.Base.{ℕ, ◌+◌, ◌-◌, ◌%◌, ◌^◌, [], ◌∷◌, ◌==◌, if◌then◌else◌, Text}
use hxroot.Config.{Hx}
use hxroot.Sys.{Errno, M, return, throw, ◌>>=◌, word, str, Op, Kernel, host}
use hxroot.Sys.Bracket.{with_fd, with_lock}
use hxroot.Files.Stat.{read_count, encode_int, o_rdwr}
use hxroot.Files.Recursion.{open_file}

-- `O_CREAT|O_RDWR|O_EXCL`
abbrev pub o_create_new : ℕ
o_create_new = 0o302

-- The count that is written for one that was read: `linkcount += 1` and `linkcount -= 1`, as the 32-bit
-- pattern of the int. At the largest int the sum, and at the smallest the difference, has no defined
-- result in C; here it wraps around, as the instruction for it does.
abbrev pub count_up : ℕ → ℕ
count_up n = (n + 1) % 2 ^ 32

abbrev pub count_down : ℕ → ℕ
count_down n = (n + 2 ^ 32 - 1) % 2 ^ 32

module _ (K : Kernel) where
  -- `write(fd, &linkcount, sizeof(int))` with its checks
  unfoldable pub write_count : ℕ → ℕ → M K.State ℕ
  unfolding encode_int
  write_count fd linkcount =
      host K Op.write [] (word fd ∷ str (encode_int linkcount) ∷ word 4 ∷ []) >>= λ nw.
      if nw == 4 then return 0 else throw Errno.epipe

  -- `lseek(fd, 0, SEEK_SET)`
  unfoldable pub rewind : ℕ → M K.State ℕ
  rewind fd = host K Op.lseek [] (word fd ∷ word 0 ∷ word 0 ∷ [])

  unfoldable pub update_count : ℕ → M K.State ℕ
  unfolding read_count rewind write_count
  update_count fd = read_count K fd >>= λ n. rewind fd >>= λ _. write_count fd (count_up n)

module _ (K : Kernel) (h : Hx) (n : ℕ) where
  -- `HxL2sCreate`
  unfoldable pub l2s_create : Text → M K.State ℕ
  unfolding with_fd with_lock write_count
  l2s_create linkcountfile =
      with_fd K (open_file K h n linkcountfile o_create_new 0o777)
        (λ fd. with_lock K fd (λ _. write_count K fd 2))

  -- `HxL2sIncrement`
  unfoldable pub l2s_increment : Text → M K.State ℕ
  unfolding with_fd with_lock update_count
  l2s_increment linkcountfile =
      with_fd K (open_file K h n linkcountfile o_rdwr 0o777)
        (λ fd. with_lock K fd (λ _. update_count K fd))
