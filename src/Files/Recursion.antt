-- ===== src/Files/Recursion.antt =====
-- The recursion between src/open.c and src/stat.c: `open` asks `stat`, which opens a count file.
-- `n` bounds how often a call of `open` may lead to another.
use hxroot.Base.{ℕ, zero, suc, Text}
use hxroot.Config.{Hx}
use hxroot.Sys.{M, out_of_fuel, Stat, Kernel}
use hxroot.Files.Stat
use hxroot.Files.Open.{open_with, openat_with}

module _ (K : Kernel) (h : Hx) where
  unfoldable pub open_file : ℕ → Text → ℕ → ℕ → M K.State ℕ
  unfolding open_with
  open_file zero path flags mode = out_of_fuel
  open_file (suc n) path flags mode =
      open_with K h (λ p. Stat.stat K h (open_file n) p) path flags mode

  abbrev pub stat : ℕ → Text → M K.State Stat
  stat n path = Stat.stat K h (open_file n) path

  unfoldable pub openat : ℕ → ℕ → Text → ℕ → ℕ → M K.State ℕ
  unfolding openat_with
  openat n dirfd path flags mode = openat_with K h (stat n) dirfd path flags mode
