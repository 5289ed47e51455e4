-- ===== src/Files/Loading.antt =====
-- src/glob.c, src/wordexp.c and src/dlopen.c.
use hxroot.Paths.{expand_path, unexpand_path}
use hxroot.Sys.{M, ◌>>=◌, host, return, call, word, Op, Kernel, Shape}
use hxroot.Config.{Hx}
use hxroot.Base.{
  ℕ, not, ◌&&◌, Option, none, some, List, [], ◌∷◌, map, ◌==◌, if◌then◌else◌, Text, map_option,
}

-- `RTLD_DL_LINKMAP`
abbrev pub rtld_dl_linkmap : ℕ
rtld_dl_linkmap = 2

module _ (K : Kernel) (h : Hx) where
  -- The list of names behind `gl_pathv`; a result other than 0 is a failure.
  unfoldable pub glob : Text → ℕ → ℕ → M K.State (List Text)
  glob pattern flags errfunc = do
    ret ← call K Shape.texts (record {
      op = Op.glob;
      paths = expand_path h pattern ∷ [];
      args = word flags ∷ word errfunc ∷ [];
    })
    return (map (unexpand_path h) ret)

  -- The list of words behind `we_wordv`, likewise.
  unfoldable pub wordexp : Text → ℕ → M K.State (List Text)
  wordexp s flags = do
    ret ←
        call K Shape.texts
          (record { op = Op.wordexp; paths = expand_path h s ∷ []; args = word flags ∷ [] })
    return (map (unexpand_path h) ret)

  -- The path is null if it is `none`.
  unfoldable pub dlopen : Option Text → ℕ → M K.State ℕ
  dlopen none flags = host K Op.dlopen [] (word flags ∷ [])
  dlopen (some path) flags = host K Op.dlopen (expand_path h path ∷ []) (word flags ∷ [])

  unfoldable pub dlmopen : ℕ → Option Text → ℕ → M K.State ℕ
  dlmopen lmid none flags = host K Op.dlmopen [] (word lmid ∷ word flags ∷ [])
  dlmopen lmid (some path) flags =
      host K Op.dlmopen (expand_path h path ∷ []) (word lmid ∷ word flags ∷ [])

  -- The result and `dli_fname`.
  unfoldable pub dladdr : ℕ → M K.State (ℕ × Option Text)
  dladdr addr = do
    got ← call K Shape.info (record { op = Op.dladdr; paths = []; args = word addr ∷ [] })
    return (got.0, if got.0 == 0 then got.1 else map_option (unexpand_path h) got.1)

  -- The result and the name in the link map.
  unfoldable pub dladdr1 : ℕ → ℕ → M K.State (ℕ × Text)
  dladdr1 addr flags = do
    got ←
        call K Shape.named
          (record { op = Op.dladdr1; paths = []; args = word addr ∷ word flags ∷ [] })
    return (
      got.0,
      if not (got.0 == 0) && flags == rtld_dl_linkmap then unexpand_path h got.1 else got.1,
    )
