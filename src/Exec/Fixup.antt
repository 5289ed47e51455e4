-- ===== src/Exec/Fixup.antt =====
-- src/fixup_argv.c: at the start of a program that a loader was started for, the arguments are moved
-- to where the kernel looks for them, so that the loader's own are not seen.
use hxroot.Sys.Bracket.{with_fd}
use hxroot.Sys.{return, M, ◌>>=◌, Op, Shape, abort, host, call, attempt, Kernel, word, str}
use hxroot.Config.{Hx}
use hxroot.Base.{
  ℕ, zero, suc, ◌+◌, ◌-◌, Option, none, some, List, [], ◌∷◌, ◌++◌, map, ltb, ◌==◌, if◌then◌else◌,
  length, take, drop, replicate, Text, bytes, text_eq, starts_with,
}
use hxroot.Files.Stat.{c_string, through_last_slash}
use hxroot.Files.Names.{realpath}
use hxroot.Files.Recursion.{open_file}
use hxroot.Paths.{root_text, unexpand_path}
use hxroot.Base.Words.{contains}

-- The memory that holds the arguments, by its bytes, with `argv` as places in it up to the null
-- pointer, and the path of the program if it was found out.
pub record Memory : Type 0 where
  pub mem : Text
  pub argv : List ℕ
  pub exe : Option Text

abbrev pub string_in : Text → ℕ → Text
string_in mem i = c_string (drop i mem)

-- The place behind the string at this one.
abbrev pub next_string : Text → ℕ → ℕ
next_string mem i = i + length (string_in mem i) + 1

-- `memmove`
unfoldable pub move_bytes : ℕ → ℕ → ℕ → Text → Text
move_bytes dst src n mem = take dst mem ++ (take n (drop src mem) ++ drop (dst + n) mem)

-- A string written over what is there, with its null byte.
unfoldable pub put_string : ℕ → Text → Text → Text
put_string i s mem = take i mem ++ (s ++ (0 ∷ drop (i + length s + 1) mem))

-- `memset` with 0
unfoldable pub clear_bytes : ℕ → ℕ → Text → Text
clear_bytes i n mem = take i mem ++ (replicate n 0 ++ drop (i + n) mem)

-- The search backwards for the text of the command line; `none` is a read below the memory.
unfoldable pub find_back : Text → Text → ℕ → Option ℕ
unfolding c_string
find_back line mem zero = if text_eq (string_in mem 0) line then some 0 else none
find_back line mem (suc i) =
    let rest = find_back line mem i in
    if text_eq (string_in mem (suc i)) line then some (suc i) else rest

-- `argv[0]` less the root.
unfoldable pub skip_root : Hx → Text → ℕ → ℕ
unfolding c_string
skip_root h mem a =
    if starts_with (string_in mem a) (root_text h.root) then a + length (root_text h.root) else a

-- `real_exe`, behind the loader and its `--argv0`.
unfoldable pub program_arg : Text → ℕ → ℕ
unfolding c_string
program_arg mem real =
    let i = next_string mem real in
    if text_eq (string_in mem i) (bytes "--argv0") then next_string mem (next_string mem i) else i

abbrev pub last_place : ℕ → List ℕ → ℕ
last_place i [] = i
last_place i (j ∷ js) = last_place j js

-- `argvlen`, the bytes of the arguments behind `argv[0]`.
abbrev pub args_length : Text → List ℕ → ℕ
args_length mem [] = 0
args_length mem (i ∷ is) = let last = last_place i is in last + length (string_in mem last) + 1 - i

-- The arguments behind `argv[0]`, moved to `dst`. A place is never below that of `argv[1]`.
unfoldable pub move_args : ℕ → Text → List ℕ → Text × List ℕ
unfolding move_bytes c_string
move_args dst mem [] = (mem, [])
move_args dst mem (i ∷ is) =
    (move_bytes dst i (args_length mem (i ∷ is)) mem, map (λ j. dst + (j - i)) (i ∷ is))

-- `shortname`
abbrev pub short_name : Text → Text
short_name s = drop (length (through_last_slash s)) s

-- `PR_SET_NAME`
abbrev pub pr_set_name : ℕ
pr_set_name = 15

module _ (K : Kernel) (h : Hx) where
  -- From the test for a loader to `HxExe`.
  unfoldable pub find_exe : Text → ℕ → M K.State (Text × Option Text)
  unfolding program_arg put_string c_string
  find_exe mem real =
      if contains (string_in mem real) (bytes "ld-linux-")
      then (let i = program_arg mem real in
          let path = unexpand_path h (string_in mem i) in
          let mem' = put_string i path mem in
          attempt (realpath K h path) (λ exe. return (mem', some (unexpand_path h exe)))
            (λ e. return (mem', none)))
      else return (mem, h.exe)

  -- From the move of `argv[0]` on; `size` is the number of bytes of the command line that were read.
  -- A size that is too small for the arguments lets `memset` run over all of the memory.
  unfoldable pub move_all : ℕ → ℕ → ℕ → List ℕ → Option Text → Text → M K.State Memory
  unfolding move_bytes move_args clear_bytes c_string
  move_all size real a0 rest exe mem =
      let len = length (string_in mem a0) + 1 in
      let moved = move_args (real + len) (move_bytes real a0 len mem) rest in
      let argvlen = args_length (move_bytes real a0 len mem) rest in
      let ready : Memory = record {
        mem = clear_bytes (real + len + argvlen) (size - (len + argvlen)) moved.0;
        argv = real ∷ moved.1;
        exe = exe;
      } in
      let done = if ltb size (len + argvlen) then abort else return ready in
      attempt
        (host K Op.prctl [] (word pr_set_name ∷ str (short_name (string_in moved.0 real)) ∷ []))
        (λ _. done) (λ e. done)

  -- What is done with the text of the command line; one that fills its buffer is taken to end there.
  unfoldable pub fix_up : Text → List ℕ → Text → M K.State Memory
  unfolding find_back skip_root find_exe move_all c_string
  fix_up mem [] line = return (record { mem = mem; argv = []; exe = h.exe })
  fix_up mem (a ∷ rest) line = elim (find_back (c_string line) mem a) [
    | none ↦ abort
    | some real ↦
        let a0 = skip_root h mem a in
        if real == a0
        then return (record { mem = mem; argv = a0 ∷ rest; exe = h.exe })
        else (find_exe mem real >>= λ got. move_all (length line) real a0 rest got.1 got.0)
  ]

  -- `HxFixupArgv`; `n` bounds the recursion of `open`.
  unfoldable pub fixup_argv : ℕ → Text → List ℕ → M K.State Memory
  unfolding fix_up with_fd
  fixup_argv n mem [] = return (record { mem = mem; argv = []; exe = h.exe })
  fixup_argv n mem (a ∷ rest) =
      let same : Memory = record { mem = mem; argv = a ∷ rest; exe = h.exe } in
      attempt
        (with_fd K (open_file K h n (bytes "/proc/self/cmdline") 0 0) (λ fd.
          attempt
            (call K Shape.text
              (record { op = Op.read; paths = []; args = word fd ∷ word 4096 ∷ [] }))
            (λ line. fix_up mem (a ∷ rest) line) (λ e. return same)))
        return (λ e. return same)
