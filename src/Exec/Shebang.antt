-- ===== src/Exec/Shebang.antt =====
-- What kind of file is started, and the first line of a script: src/exec.c.
use hxroot.Files.Stat.{through_last_slash}
use hxroot.Base.Words.{from, before, skip_spaces}
use hxroot.Paths.{char_at}
use hxroot.Base.{
  Bool, ◌&&◌, ◌||◌, Option, none, some, List, [], ◌∷◌, leb, ◌==◌, length, drop, Text, bytes,
  starts_with,
}

-- `HxIsShebang`
unfoldable pub is_shebang : Text → Bool
is_shebang buf = starts_with buf (bytes "#!")

-- `HxIsElf`
unfoldable pub is_elf : Text → Bool
is_elf buf = starts_with buf (0x7f ∷ bytes "ELF")

-- `HxIsElf32` and `HxIsElf64`: the size of the header, and `buf[EI_CLASS]`.
unfoldable pub is_elf32 : Text → Bool
is_elf32 buf = leb 52 (length buf) && char_at buf 4 == 1

unfoldable pub is_elf64 : Text → Bool
is_elf64 buf = leb 64 (length buf) && char_at buf 4 == 2

-- The first line as a string: up to its newline or a null byte.
unfoldable pub first_line : Text → Text
unfolding before
first_line buf = before (λ c. c == b'\n' || c == 0) buf

-- `interp` and `arg` of `HxHandleShebang`.
pub record Script : Type 0 where
  pub interp : Text
  pub arg : Option Text

abbrev pub default_shell : Text
default_shell = bytes "/bin/sh"

-- The text behind the first space: nothing where only spaces follow.
abbrev pub arg_of : Text → Option Text
arg_of [] = none
arg_of (c ∷ s) = some (c ∷ s)

-- A line that names an interpreter, from its first byte that is no space.
abbrev pub script_of : Text → Script
script_of [] = record { interp = default_shell; arg = none }
script_of (c ∷ s) = record {
  interp = before (λ d. d == b' ') (c ∷ s);
  arg = arg_of (skip_spaces (from (λ d. d == b' ') (c ∷ s)));
}

unfoldable pub parse_shebang : Text → Script
unfolding before from skip_spaces
parse_shebang line = script_of (skip_spaces (drop 2 line))

-- `interp_name`, the interpreter behind its last slash.
unfoldable pub interp_name : Text → Text
unfolding through_last_slash
interp_name interp = drop (length (through_last_slash interp)) interp

abbrev pub with_arg : Option Text → List Text → List Text
with_arg none rest = rest
with_arg (some a) rest = a ∷ rest

-- `new_argv`. The script's own `argv[0]` is left out; of an empty `argv` nothing is copied, not the
-- null pointer either, and `junk` is what stands behind `new_path` up to the next null pointer.
unfoldable pub script_argv : List Text → Script → Text → List Text → List Text
unfolding interp_name
script_argv junk script new_path [] =
    interp_name script.interp ∷ with_arg script.arg (new_path ∷ junk)
script_argv junk script new_path (a ∷ argv) =
    interp_name script.interp ∷ with_arg script.arg (new_path ∷ argv)
