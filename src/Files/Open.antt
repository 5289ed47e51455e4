-- ===== src/Files/Open.antt =====
-- src/open.c. `open` and `openat` ask the wrapper of `stat` for the mode of a file that they may not
-- open, and that wrapper opens count files: it is the parameter `stat_` here, and `Recursion` ties
-- the two together.
use Prim.Native.String.{String}
use hxroot.Base.{ℕ, ◌&&◌, List, [], ◌∷◌, ◌++◌, if◌then◌else◌, Text, bytes, text_eq}
use hxroot.Base.Bits.{has_bit, set_bit}
use hxroot.Config.{Hx, is_fake_root}
use hxroot.Paths.{expand_path}
use hxroot.Sys.{is_eacces, M, return, throw, attempt, ◌>>=◌, Stat, word, str, Op, Kernel, host}
use hxroot.Wrap.Meta.{chmod, fchmodat}

abbrev pub o_creat : ℕ
o_creat = 0o100

-- The mode argument, read only if `O_CREAT` is given.
abbrev pub creation_mode : ℕ → ℕ → ℕ
creation_mode flags mode = if has_bit flags o_creat then mode else 0

-- The mode under which the owner may open the file with these flags: `O_WRONLY` is 1, `O_RDWR` is 2,
-- `S_IWUSR` is 0o200 and `S_IRUSR` is 0o400.
unfoldable pub override_mode : ℕ → ℕ → ℕ
override_mode flags mode =
    if has_bit flags 1
    then set_bit mode 0o200
    else if has_bit flags 2
    then set_bit (set_bit mode 0o400) 0o200
    else set_bit mode 0o400

module _ (K : Kernel) (h : Hx) (stat_ : Text → M K.State Stat) where
  -- The second try, with the file's mode changed by `change` and put back behind it.
  unfoldable pub override : Text → ℕ → (ℕ → M K.State ℕ) → M K.State ℕ → M K.State ℕ
  unfolding override_mode
  override path flags change again = stat_ path >>= λ st.
      change (override_mode flags st.st_mode) >>= λ _.
      attempt again (λ fd. chmod K h path st.st_mode >>= λ _. return fd)
        (λ e. chmod K h path st.st_mode >>= λ _. throw e)

  unfoldable pub open_with : Text → ℕ → ℕ → M K.State ℕ
  unfolding override
  open_with path flags mode =
      let open_real =
        host K Op.open_file (expand_path h path ∷ [])
          (word flags ∷ word (creation_mode flags mode) ∷ []) in
      attempt open_real return (λ e.
        if is_eacces e && is_fake_root h
        then override path flags (chmod K h path) open_real
        else throw e)

  unfoldable pub openat_with : ℕ → Text → ℕ → ℕ → M K.State ℕ
  unfolding override
  openat_with dirfd path flags mode =
      let openat_real =
        host K Op.openat (expand_path h path ∷ [])
          (word dirfd ∷ word flags ∷ word (creation_mode flags mode) ∷ []) in
      attempt openat_real return (λ e.
        if is_eacces e && is_fake_root h
        then override path flags (λ m. fchmodat K h dirfd path m 0) openat_real
        else throw e)

-- One line of `FAKESTAT`, with its newline
abbrev stat_line : String → Text
stat_line s = bytes s ++ (10 ∷ [])

abbrev cpu_lines : List String
cpu_lines = "cpu" ∷ "cpu0" ∷ "cpu1" ∷ "cpu2" ∷ "cpu3" ∷ "cpu4" ∷ "cpu5" ∷ "cpu6" ∷ "cpu7" ∷ []

abbrev cpu_text : List String → Text
cpu_text [] = stat_line "btime 0"
cpu_text (name ∷ names) = bytes name ++ (stat_line " 0 0 0 0 0 0 0 0 0 0" ++ cpu_text names)

-- `FAKESTAT`, with the null byte at its end, which `sizeof` counts
abbrev pub fakestat : Text
fakestat = cpu_text cpu_lines ++ (0 ∷ [])

-- What `fopen` gives: a stream of the host, or one over a text in memory.
pub data Stream : Type 0 where
  host_stream : ℕ → Stream
  memory_stream : Text → Stream

module _ (K : Kernel) (h : Hx) where
  unfoldable pub fopen : Text → Text → M K.State Stream
  fopen path mode =
      if text_eq path (bytes "/proc/stat")
      then return (memory_stream fakestat)
      else host K Op.fopen (expand_path h path ∷ []) (str mode ∷ []) >>= λ f. return (host_stream f)
