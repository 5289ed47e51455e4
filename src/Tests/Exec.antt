-- ===== src/Tests/Exec.antt =====
-- The start of programs on examples.
use hxroot.Sys.Log.{logged}
use hxroot.Exec.HandedEnv.{StartsWith, handle_elf64-StartsWith}
use hxroot.Config.{Hx}
use hxroot.Exec.Fixup.{
  move_all, program_arg, find_exe, fix_up, move_bytes, find_back, put_string, skip_root, move_args,
  clear_bytes,
}
use hxroot.Files.Names.{realpath}
use hxroot.Files.Recursion.{open_file}
use hxroot.Files.Open.{open_with}
use hxroot.Files.Stat.{c_string, through_last_slash}
use hxroot.Paths.{excluded, expand_path, should_expand, expanded_len, unexpand_path}
use hxroot.Sys.{Errno, errs, Result, exhausted, ok, gives, fail, call, Call}
use hxroot.Tests.{giving, jail}
use hxroot.Base.{
  ℕ, ◌+◌, ◌≡◌, refl, none, some, List, [], ◌∷◌, ◌++◌, arith, if◌then◌else◌, All, Text, bytes,
  text_eq, starts_with, replicate, inl, inr,
}
use hxroot.Exec.Env.{Process, entry_of, supply, preserve, preserve_env}
use hxroot.Exec.EnvLaws.{listed}
use hxroot.Config.Init.{initial_id}
use hxroot.Config.InitLaws.{initial_id-preserve}
use hxroot.Exec.Shebang.{parse_shebang, first_line, is_shebang}
use hxroot.Exec.ShebangLaws.{parse_shebang-first_line}
use hxroot.Exec.Run.{execvpe_with, execve, next_of, dir_limit}
use hxroot.Exec.RunLaws.{execve-own_interp}
use hxroot.Exec.SearchLaws.{execvpe_first, execvpe_none, asked, errors, visited, Passed}
use hxroot.Exec.Ldlib.{Buffer, append}
use hxroot.Exec.LdlibLaws.{append_all_lem, append_overflow, joined}
use hxroot.Exec.Loader.{append_all, is_bionic, handle_elf64}
use hxroot.Exec.Elf.{Dyn, ElfInfo, scan, scanned, string_at}
use hxroot.Exec.ElfLaws.{scan_lem, last_string}
use hxroot.Base.Words.{split, contains, before, skip_spaces, from}

-- A process whose `environ` lost its preload, and kept the root.
abbrev a_process : Process
a_process = record {
  environ = bytes "HxRoot=/r" ∷ [];
  backup = bytes "LD_PRELOAD=/hx.so" ∷ bytes "HxRoot=/old" ∷ [];
}

abbrev given : List Text
given = bytes "TERM=x" ∷ bytes "HxBinds=/b" ∷ []

abbrev no_paths : ElfInfo
no_paths = record { interp = some (bytes "/ld"); rpath = none; runpath = none }

abbrev with_linker : Hx
with_linker = record jail { linker = some (bytes "/l") }

-- The root of `environ` reaches the program, and so does the preload that only the copy still has.
handle_elf64-StartsWith_example :
    let run : List Call =
      (handle_elf64
        (logged (giving []))
        with_linker
        a_process
        (bytes "/r/a")
        (bytes "a" ∷ [])
        given
        no_paths
        (bytes "/ld")
        ([], 0)).1.0 in
    StartsWith (bytes "HxRoot") (some (bytes "HxRoot=/r")) run
    × StartsWith (bytes "LD_PRELOAD") (some (bytes "LD_PRELOAD=/hx.so")) run
unfolding listed entry_of supply text_eq starts_with is_bionic contains
handle_elf64-StartsWith_example = (
  handle_elf64-StartsWith (giving []) with_linker a_process (bytes "/r/a") (bytes "a" ∷ []) given
      no_paths (bytes "/ld") (bytes "HxRoot") ([], 0) refl (ground arith) (inl refl),
  handle_elf64-StartsWith (giving []) with_linker a_process (bytes "/r/a") (bytes "a" ∷ []) given
      no_paths (bytes "/ld") (bytes "LD_PRELOAD") ([], 0) refl (ground arith)
      (inr (bytes "/l", refl, refl)),
)

initial_id-preserve_example :
    (initial_id (preserve jail a_process preserve_env given) none (bytes "HxUid") ≡ 0)
    × (initial_id (preserve jail a_process preserve_env given) none (bytes "HxGid") ≡ 0)
unfolding entry_of text_eq starts_with
initial_id-preserve_example = initial_id-preserve jail a_process given none refl refl

parse_shebang-first_line_example :
    parse_shebang (first_line (bytes "#!  /bin/sh  -e x\necho"))
    ≡ record { interp = bytes "/bin/sh"; arg = some (bytes "-e x") }
parse_shebang-first_line_example =
    parse_shebang-first_line 1 b'/' (bytes "bin/sh") (ground arith) 2 (bytes "echo") (ground arith)
      (some (bytes "-e x")) (ground arith)

-- The program is in `/b`; `/a` may not be searched.
abbrev answers : Text → Result ℕ
answers path =
    if text_eq path (bytes "/b/ls")
    then gives 0
    else if text_eq path (bytes "/a/ls")
    then errs Errno.eacces
    else errs Errno.enoent

execvpe_first_example :
    execvpe_with (asked answers) (bytes "/a:/b:/c") (bytes "ls") [] [] []
    ≡ (ok 0, bytes "/b/ls" ∷ bytes "/a/ls" ∷ [])
unfolding text_eq split visited contains starts_with next_of
execvpe_first_example =
    execvpe_first answers (bytes "/a:/b:/c") (bytes "ls") [] [] [] (omega arith, omega arith, refl)
      (bytes "/a" ∷ []) (bytes "/c" ∷ []) (bytes "/b") 0 refl (λ q. (Errno.eacces, refl, refl), tt)
      refl refl

no_ls_in_c : All (Passed answers (dir_limit (bytes "/a:/c")) (bytes "ls")) (bytes "/c" ∷ [])
unfolding text_eq next_of
no_ls_in_c = (λ q. (Errno.enoent, refl, refl), tt)

execvpe_none_example :
    execvpe_with (asked answers) (bytes "/a:/c") (bytes "ls") [] [] []
    ≡ (fail Errno.eacces, bytes "/c/ls" ∷ bytes "/a/ls" ∷ [])
unfolding text_eq split visited contains starts_with next_of errors
execvpe_none_example =
    execvpe_none answers (bytes "/a:/c") (bytes "ls") [] [] [] (omega arith, omega arith, refl)
      (λ q. (Errno.eacces, refl, refl), no_ls_in_c)

abbrev own_line : Text
own_line = bytes "#!/me\n"

execve-own_interp_example :
    (execve (giving own_line) jail a_process [] 1 9 (bytes "/me") (bytes "me" ∷ []) [] 0).0
    ≡ exhausted
unfolding call open_file open_with is_shebang starts_with parse_shebang first_line before from
    skip_spaces
execve-own_interp_example =
    execve-own_interp (giving own_line) jail a_process [] 1 (bytes "/me") own_line
      (λ s. (4, s + 1, refl)) (λ fd s. (s + 1, refl)) refl refl 9 (bytes "me" ∷ []) [] 0

abbrev a_buffer : Buffer
a_buffer = record { text = bytes "LD_LIBRARY_PATH=/x"; bufpos = 18; bufsiz = 512 }

append_all_lem_example :
    (b : Buffer) × (append_all jail (bytes "lib" ∷ bytes "/lib" ∷ []) (some a_buffer)
      ≡ some (some b))
    × (b.text ≡ bytes "LD_LIBRARY_PATH=/x:/r/lib")
unfolding joined expanded_len expand_path should_expand excluded starts_with
append_all_lem_example =
    append_all_lem jail (bytes "lib" ∷ bytes "/lib" ∷ []) a_buffer (refl, omega arith, omega arith)
      (omega arith) (omega arith)

abbrev tight_buffer : Buffer
tight_buffer = record { text = bytes "ab"; bufpos = 2; bufsiz = 4 }

abbrev full_buffer : Buffer
full_buffer = record { text = bytes "ab:"; bufpos = 5; bufsiz = 4 }

append_overflow_example : append (bytes "x") (some full_buffer) ≡ none
unfolding append
append_overflow_example =
    append_overflow tight_buffer (bytes "cd") (refl, omega arith, omega arith) (omega arith)
      (bytes "x") full_buffer refl (omega arith) refl

abbrev a_dyn : ℕ → ℕ → Dyn
a_dyn tag v = record { d_tag = tag; d_val = v }

abbrev no_info : ElfInfo
no_info = record { interp = none; rpath = none; runpath = none }

scan_lem_example :
    scan
      (bytes "/a" ++ (0 ∷ bytes "/b") ++ (0 ∷ []))
      (a_dyn 1 9 ∷ a_dyn 15 0 ∷ a_dyn 29 3 ∷ a_dyn 0 0 ∷ a_dyn 15 99 ∷ [])
      no_info
    ≡ scanned (record { interp = none; rpath = some (bytes "/a"); runpath = some (bytes "/b") })
unfolding last_string string_at c_string
scan_lem_example =
    scan_lem (bytes "/a" ++ (0 ∷ bytes "/b") ++ (0 ∷ [])) (a_dyn 1 9 ∷ a_dyn 15 0 ∷ a_dyn 29 3 ∷ [])
      (a_dyn 15 99 ∷ []) (a_dyn 0 0) no_info (ground arith) refl

-- `/r/ld-linux-x --argv0 a /r/p b` with `argv` at `a` and `b`, as bytes with null bytes between.
abbrev loaded : Text
loaded =
    bytes "/r/ld-linux-x"
    ++ (0 ∷ bytes "--argv0")
    ++ (0 ∷ bytes "a")
    ++ (0 ∷ bytes "/r/p")
    ++ (0 ∷ bytes "b")
    ++ (0 ∷ [])

fixed_up :
    (fix_up (giving (bytes "/r/p")) jail loaded (22 ∷ 29 ∷ []) loaded 0).0
    ≡ ok (record {
      mem = bytes "a" ++ (0 ∷ bytes "b") ++ (0 ∷ replicate 27 0);
      argv = 0 ∷ 2 ∷ [];
      exe = some (bytes "/p");
    })
unfolding fix_up find_back skip_root find_exe move_all move_args move_bytes put_string clear_bytes
    program_arg c_string starts_with text_eq contains call unexpand_path realpath expand_path
    through_last_slash
fixed_up = refl
