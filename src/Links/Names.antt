-- ===== src/Links/Names.antt =====
-- `HxL2sName` and `HxMktemp` of src/link.c: the hidden name of a linked file.
use hxroot.Base.{
  ℕ, ◌-◌, ◌%◌, none, some, [], ◌∷◌, ◌++◌, map, ◌==◌, if◌then◌else◌, length, get_elem?, take, drop,
  Text, bytes, text_eq,
}
use hxroot.Sys.{Errno, M, return, throw, ◌>>=◌, Shape, word, Op, Kernel, call}
use hxroot.Files.Stat.{through_last_slash}

-- `dirname` and `basename`, which a path without a slash has as `""` and the whole path.
unfoldable pub dirname : Text → Text
unfolding through_last_slash
dirname path = take (length (through_last_slash path) - 1) (through_last_slash path)

unfoldable pub basename : Text → Text
unfolding through_last_slash
basename path = drop (length (through_last_slash path)) path

-- `HxL2sName`
unfoldable pub l2s_name : Text → Text
unfolding dirname basename
l2s_name path = dirname path ++ (bytes "/.HxL2s." ++ (basename path ++ bytes ".XXXXXX"))

abbrev pub mktemp_chars : Text
mktemp_chars = bytes "ABCDEFGHIJKLMNOPQRSTUVWXYZabcdefghijklmnopqrstuvwxyz0123456789"

-- `sizeof(MktempChars)-1`, the size of a pointer less one
abbrev pub mktemp_chars_len : ℕ
mktemp_chars_len = 8 - 1

-- `MktempChars[r % MktempCharsLen]`, of an unsigned `char` as on the target
unfoldable pub mktemp_char : ℕ → ℕ
mktemp_char r = elim (get_elem? mktemp_chars (r % mktemp_chars_len)) [ some c ↦ c | none ↦ 0 ]

-- The last six bytes of a template are to be `XXXXXX`.
abbrev pub template_tail : Text
template_tail = bytes "XXXXXX"

unfoldable pub fill_template : Text → Text → Text
unfolding mktemp_char
fill_template tmpl r = take (length tmpl - 6) tmpl ++ map mktemp_char r

-- `HxMktemp`: the value is the template after the call.
unfoldable pub mktemp : (K : Kernel) → Text → M K.State Text
unfolding fill_template
mktemp K tmpl =
    call K Shape.text (record { op = Op.getrandom; paths = []; args = word 6 ∷ word 0 ∷ [] })
    >>= λ r.
        if length r == 6
        then (if text_eq (drop (length tmpl - 6) tmpl) template_tail
            then return (fill_template tmpl r)
            else throw Errno.einval)
        else throw Errno.enodata
