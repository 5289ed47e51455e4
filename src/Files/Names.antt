-- ===== src/Files/Names.antt =====
-- src/realpath.c, `getcwd` of src/getcwd.c, and src/chroot.c.
use hxroot.Base.{ℕ, Option, none, some, List, [], ◌∷◌, Text, bytes}
use hxroot.Config.{Hx}
use hxroot.Paths.{expand_path, unexpand_path}
use hxroot.Sys.{
  Errno, M, return, throw, attempt, ◌>>=◌, Shape, Arg, word, str, Op, Kernel, call, host,
}

-- A host function called for a text.
abbrev pub host_text : (K : Kernel) → Op → List Text → List Arg → M K.State Text
host_text K f ps xs = call K Shape.text (record { op = f; paths = ps; args = xs })

-- A call whose result the code does not look at.
unfoldable pub ignoring : {S A B : Type 0} → M S A → M S B → M S B
ignoring m k = attempt m (λ _. k) (λ _. k)

module _ (K : Kernel) (h : Hx) where
  -- The buffer is the caller's own affair: the text is the one that it holds in the end.
  unfoldable pub realpath : Text → M K.State Text
  realpath path = do
    ret ← host_text K Op.realpath (expand_path h path ∷ []) []
    return (unexpand_path h ret)

  unfoldable pub canonicalize_file_name : Text → M K.State Text
  unfolding realpath
  canonicalize_file_name path = realpath path

  unfoldable pub realpath_chk : Text → ℕ → M K.State Text
  realpath_chk path resolvedlen = do
    ret ← host_text K Op.realpath_chk (expand_path h path ∷ []) (word resolvedlen ∷ [])
    return (unexpand_path h ret)

  unfoldable pub getcwd : ℕ → M K.State Text
  getcwd size = do ret ← host_text K Op.getcwd [] (word size ∷ []); return (unexpand_path h ret)

  -- The value is the settings that later calls see; the first path is null if it is `none`.
  unfoldable pub chroot : Option Text → M K.State Hx
  unfolding realpath ignoring
  chroot none = throw Errno.efault
  chroot (some path) = do
    real ← realpath (expand_path h path)
    ignoring (host K Op.setenv [] (str (bytes "HxRoot") ∷ str real ∷ word 1 ∷ [])) (
        ignoring (host K Op.setenv [] (str (bytes "FAKECHROOT_BASE") ∷ str real ∷ word 1 ∷ []))
          (return (record h { root = some real })))
