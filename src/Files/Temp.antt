-- ===== src/Files/Temp.antt =====
-- src/mktemp.c. The host writes the name it chose into the buffer that it was given.
use hxroot.Paths.{expand_path, expanded_len}
use hxroot.Sys.{Op, Shape, Kernel, M, return, word, call, abort, ◌>>=◌}
use hxroot.Config.{Hx}
use hxroot.Base.{ℕ, ◌-◌, [], ◌∷◌, ◌++◌, ◌==◌, if◌then◌else◌, length, take, drop, Text}
use hxroot.Files.Names.{host_text}

-- The six characters before a suffix, copied from the host's name into the guest's template.
unfoldable pub copy_six : ℕ → Text → Text → Text
copy_six suffixlen template new_template =
    take (length template - suffixlen - 6) template
    ++ (take 6 (drop (length new_template - suffixlen - 6) new_template)
        ++ drop (length template - suffixlen) template)

-- `if(… && len != 0) …`: without a rewrite the host wrote into the template itself.
unfoldable pub filled_template : Hx → ℕ → Text → Text → Text
unfolding copy_six
filled_template h suffixlen template new_template =
    if expanded_len h template == 0 then new_template else copy_six suffixlen template new_template

module _ (K : Kernel) (h : Hx) where
  -- The value is the descriptor, with the template after the call.
  unfoldable pub mkstemp : Text → M K.State (ℕ × Text)
  unfolding filled_template
  mkstemp template = do
    got ←
        call K Shape.named
          (record { op = Op.mkstemp; paths = expand_path h template ∷ []; args = [] })
    return (got.0, filled_template h 0 template got.1)

  unfoldable pub mkostemp : Text → ℕ → M K.State (ℕ × Text)
  unfolding filled_template
  mkostemp template flags = do
    got ←
        call K Shape.named
          (record { op = Op.mkostemp; paths = expand_path h template ∷ []; args = word flags ∷ [] })
    return (got.0, filled_template h 0 template got.1)

  unfoldable pub mkstemps : Text → ℕ → M K.State (ℕ × Text)
  unfolding filled_template
  mkstemps template suffixlen = do
    got ← call K Shape.named (record {
      op = Op.mkstemps;
      paths = expand_path h template ∷ [];
      args = word suffixlen ∷ [];
    })
    return (got.0, filled_template h suffixlen template got.1)

  unfoldable pub mkostemps : Text → ℕ → ℕ → M K.State (ℕ × Text)
  mkostemps template suffixlen flags = abort

  unfoldable pub mkdtemp : Text → M K.State Text
  unfolding filled_template
  mkdtemp template = do
    got ← host_text K Op.mkdtemp (expand_path h template ∷ []) []
    return (filled_template h 0 template got)
