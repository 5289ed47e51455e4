-- ===== src/Wrap/Attrs.antt =====
-- Wrappers that hand their path arguments on rewritten: src/attr.c, src/xattr.c.
use hxroot.Base.{ℕ, [], ◌∷◌, Text}
use hxroot.Config.{Hx}
use hxroot.Paths.{expand_path}
use hxroot.Sys.{M, Op, word, str, Kernel, host}

module _ (K : Kernel) (h : Hx) where
  -- src/attr.c
  unfoldable pub attr_get : Text → Text → ℕ → ℕ → ℕ → M K.State ℕ
  attr_get path attrname attrvalue valuelength flags =
      host K Op.attr_get (expand_path h path ∷ [])
        (str attrname ∷ word attrvalue ∷ word valuelength ∷ word flags ∷ [])

  -- src/attr.c
  unfoldable pub attr_set : Text → Text → Text → ℕ → ℕ → M K.State ℕ
  attr_set path attrname attrvalue valuelength flags =
      host K Op.attr_set (expand_path h path ∷ [])
        (str attrname ∷ str attrvalue ∷ word valuelength ∷ word flags ∷ [])

  -- src/attr.c
  unfoldable pub attr_remove : Text → Text → ℕ → M K.State ℕ
  attr_remove path attrname flags =
      host K Op.attr_remove (expand_path h path ∷ []) (str attrname ∷ word flags ∷ [])

  -- src/attr.c
  unfoldable pub attr_list : Text → ℕ → ℕ → ℕ → ℕ → M K.State ℕ
  attr_list path buffer buffersize flags cursor =
      host K Op.attr_list (expand_path h path ∷ [])
        (word buffer ∷ word buffersize ∷ word flags ∷ word cursor ∷ [])

  -- src/attr.c
  unfoldable pub attr_multi : Text → ℕ → ℕ → ℕ → M K.State ℕ
  attr_multi path oplist count flags =
      host K Op.attr_multi (expand_path h path ∷ []) (word oplist ∷ word count ∷ word flags ∷ [])

  -- src/xattr.c
  unfoldable pub listxattr : Text → ℕ → ℕ → M K.State ℕ
  listxattr path list size =
      host K Op.listxattr (expand_path h path ∷ []) (word list ∷ word size ∷ [])

  -- src/xattr.c
  unfoldable pub llistxattr : Text → ℕ → ℕ → M K.State ℕ
  llistxattr path list size =
      host K Op.llistxattr (expand_path h path ∷ []) (word list ∷ word size ∷ [])

  -- src/xattr.c
  unfoldable pub getxattr : Text → Text → ℕ → ℕ → M K.State ℕ
  getxattr path name value size =
      host K Op.getxattr (expand_path h path ∷ []) (str name ∷ word value ∷ word size ∷ [])

  -- src/xattr.c
  unfoldable pub lgetxattr : Text → Text → ℕ → ℕ → M K.State ℕ
  lgetxattr path name value size =
      host K Op.lgetxattr (expand_path h path ∷ []) (str name ∷ word value ∷ word size ∷ [])

  -- src/xattr.c
  unfoldable pub setxattr : Text → Text → ℕ → ℕ → ℕ → M K.State ℕ
  setxattr path name value size flags =
      host K Op.setxattr (expand_path h path ∷ [])
        (str name ∷ word value ∷ word size ∷ word flags ∷ [])

  -- src/xattr.c
  unfoldable pub lsetxattr : Text → Text → ℕ → ℕ → ℕ → M K.State ℕ
  lsetxattr path name value size flags =
      host K Op.lsetxattr (expand_path h path ∷ [])
        (str name ∷ word value ∷ word size ∷ word flags ∷ [])

  -- src/xattr.c
  unfoldable pub removexattr : Text → Text → M K.State ℕ
  removexattr path name = host K Op.removexattr (expand_path h path ∷ []) (str name ∷ [])

  -- src/xattr.c
  unfoldable pub lremovexattr : Text → Text → M K.State ℕ
  lremovexattr path name = host K Op.lremovexattr (expand_path h path ∷ []) (str name ∷ [])
