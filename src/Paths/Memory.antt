-- ===== src/Paths/Memory.antt =====
-- The parts of src/util.c that work on memory: `HxUnexpandPath` as it changes its buffer, and
-- `HxCountArgv`.
use hxroot.Exec.Fixup.{move_bytes, put_string, string_in}
use hxroot.Files.Stat.{c_string}
use hxroot.Paths.{root_text, char_at}
use hxroot.Config.{Hx}
use hxroot.Base.{
  ℕ, suc, ◌+◌, Option, none, some, List, [], ◌∷◌, ◌==◌, if◌then◌else◌, map_option, length, Text,
  bytes, starts_with,
}

-- The bytes of memory are a list, and a pointer is a place in it.
-- `strmove`
unfoldable pub strmove : ℕ → ℕ → Text → Text
unfolding move_bytes
strmove dst src mem = move_bytes dst src (length (string_in mem src) + 1) mem

abbrev pub slash_if_empty : ℕ → Text → Text
slash_if_empty i mem = if char_at mem i == 0 then put_string i (bytes "/") mem else mem

-- `HxUnexpandPath`, with the path at the place `i`.
unfoldable pub unexpand_at : Hx → ℕ → Text → Text
unfolding strmove put_string c_string
unexpand_at h i mem =
    if starts_with (string_in mem i) (root_text h.root)
    then slash_if_empty i (strmove i (i + length (root_text h.root)) mem)
    else mem

-- `HxCountArgv`; `none` reads behind the array, which has no null pointer.
unfoldable pub count_argv : List (Option Text) → Option ℕ
count_argv [] = none
count_argv (none ∷ argv) = some 0
count_argv (some s ∷ argv) = map_option suc (count_argv argv)
