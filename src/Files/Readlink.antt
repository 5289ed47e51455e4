-- ===== src/Files/Readlink.antt =====
-- src/readlink.c
use hxroot.Base.{
  ℕ, ◌+◌, ◌-◌, ◌%◌, ◌^◌, Option, none, some, [], ◌∷◌, ◌++◌, ltb, ◌==◌, if◌then◌else◌, length, take,
  Text, bytes, text_eq,
}
use hxroot.Config.{Hx}
use hxroot.Paths.{expand_path, unexpand_path}
use hxroot.Sys.{M, return, ◌>>=◌, word, Op, Kernel}
use hxroot.Files.Names.{host_text}

-- What the caller gets: the value returned, and the bytes in the buffer (up to a null byte that the
-- code put there).
abbrev pub Filled : Type 0
Filled = ℕ × Text

abbrev pub self_exe : Text
self_exe = bytes "/proc/self/exe"

-- `bufsize - 1`, of an unsigned 64-bit integer
abbrev pub less_one : ℕ → ℕ
less_one n = (n + 2 ^ 64 - 1) % 2 ^ 64

-- The branch for `/proc/self/exe`: `HxExe` and its null byte, as far as the buffer goes.
unfoldable pub copy_exe : Text → ℕ → Filled
copy_exe exe bufsize =
    let len = if ltb (length exe + 1) bufsize then length exe + 1 else bufsize in
    (len, take len (exe ++ (0 ∷ [])))

module _ (h : Hx) where
  -- What follows the host's call, which put `ret` into the buffer.
  unfoldable pub finish_readlink : ℕ → Text → Filled
  finish_readlink bufsize ret =
      if length ret == bufsize
      then (length ret, unexpand_path h (take (less_one bufsize) ret))
      else (length (unexpand_path h ret), unexpand_path h ret)

  -- The first test of all four: `HxExe` is set and the path is `/proc/self/exe`.
  unfoldable pub exe_asked : Text → Option Text
  exe_asked path = if text_eq path self_exe then h.exe else none

module _ (K : Kernel) (h : Hx) where
  unfoldable pub readlink : Text → ℕ → M K.State Filled
  unfolding exe_asked copy_exe finish_readlink
  readlink path bufsize = elim (exe_asked h path) [
    | some exe ↦ return (copy_exe exe bufsize)
    | none ↦ do
      ret ← host_text K Op.readlink (expand_path h path ∷ []) (word (less_one bufsize) ∷ [])
      return (finish_readlink h bufsize ret)
  ]

  unfoldable pub readlinkat : ℕ → Text → ℕ → M K.State Filled
  unfolding exe_asked copy_exe finish_readlink
  readlinkat fd path bufsize = elim (exe_asked h path) [
    | some exe ↦ return (copy_exe exe bufsize)
    | none ↦ do
      ret ←
          host_text K Op.readlinkat (expand_path h path ∷ [])
            (word fd ∷ word (less_one bufsize) ∷ [])
      return (finish_readlink h bufsize ret)
  ]

  unfoldable pub readlink_chk : Text → ℕ → ℕ → M K.State Filled
  unfolding exe_asked copy_exe finish_readlink
  readlink_chk path bufsize buflen = elim (exe_asked h path) [
    | some exe ↦ return (copy_exe exe bufsize)
    | none ↦ do
      ret ←
          host_text K Op.readlink_chk (expand_path h path ∷ [])
            (word (less_one bufsize) ∷ word buflen ∷ [])
      return (finish_readlink h bufsize ret)
  ]

  unfoldable pub readlinkat_chk : ℕ → Text → ℕ → ℕ → M K.State Filled
  unfolding exe_asked copy_exe finish_readlink
  readlinkat_chk fd path bufsize buflen = elim (exe_asked h path) [
    | some exe ↦ return (copy_exe exe bufsize)
    | none ↦ do
      ret ←
          host_text K Op.readlinkat_chk (expand_path h path ∷ [])
            (word fd ∷ word (less_one bufsize) ∷ word buflen ∷ [])
      return (finish_readlink h bufsize ret)
  ]
