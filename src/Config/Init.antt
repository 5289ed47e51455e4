-- ===== src/Config/Init.antt =====
-- `HxDoInit` of src/hxroot.c, which fills the settings from the environment at the start.
use hxroot.Paths.{is_none}
use hxroot.Sys.{◌>>=◌, Stat, call, attempt, Kernel, host, Op, Shape, str, M, word, return}
use hxroot.Config.{unset, Hx}
use hxroot.Base.{
  ℕ, ◌+◌, ◌-◌, ◌*◌, ◌/◌, ◌%◌, ◌^◌, Bool, true, ◌&&◌, ◌||◌, Option, none, some, List, [], ◌∷◌, ◌++◌,
  leb, ◌==◌, if◌then◌else◌, take, Text, bytes,
}
use hxroot.Base.Words.{tokens}
use hxroot.Exec.Env.{get_env}

-- One digit more. The int is kept as its 32-bit pattern: one that overflows wraps around.
abbrev pub add_digit : ℕ → ℕ → ℕ
add_digit res c = (res * 10 + (c - b'0')) % 2 ^ 32

-- `simple_atoi` from `res` on.
unfoldable pub atoi_from : ℕ → Text → ℕ
atoi_from res [] = res
atoi_from res (c ∷ s) =
    let rest = atoi_from (add_digit res c) s in if leb b'0' c && leb c b'9' then rest else res

-- `simple_atoi`, which gives 0 for a null pointer too.
unfoldable pub simple_atoi : Option Text → ℕ
unfolding atoi_from
simple_atoi none = 0
simple_atoi (some s) = atoi_from 0 s

-- `char *x = getenv(a); if(!x) x = getenv(b);`
unfoldable pub env_or : List Text → Text → Text → Option Text
unfolding get_env
env_or env a b = elim (get_env env a) [ some s ↦ some s | none ↦ get_env env b ]

-- `HxUid` and `HxGid`: the root user where there is a root or a sign of one.
unfoldable pub initial_id : List Text → Option Text → Text → ℕ
unfolding get_env simple_atoi
initial_id env root name = elim (get_env env name) [
  | some s ↦ simple_atoi (some s)
  | none ↦
      if is_none root
        && is_none (get_env env (bytes "FAKECHROOT"))
        && is_none (get_env env (bytes "FAKECHROOT_BASE"))
      then unset
      else 0
]

-- `HxL2s`
unfoldable pub initial_l2s : List Text → Bool
unfolding get_env simple_atoi
initial_l2s env = elim (get_env env (bytes "HxL2s")) [
  | none ↦ true
  | some s ↦ simple_atoi (some s) == 1
]

-- `HxBinds`, of the text that names them.
unfoldable pub parse_binds : Text → List Text
unfolding tokens
parse_binds s = take 16 (tokens (λ c. c == b':' || c == b' ' || c == b'\n') s)

abbrev pub termux_glibc : Text
termux_glibc = bytes "/data/data/com.termux/files/usr/glibc"

-- `S_ISDIR`
abbrev pub is_directory : ℕ → Bool
is_directory mode = mode / 0o10000 % 16 == 4

-- `snprintf(sub, PATH_MAX, …)`
abbrev pub sub_path : Text → Text → Text
sub_path root name = take 4095 (root ++ name)

module _ (K : Kernel) where
  -- `newfstatat` by its number, and `realpath`.
  unfoldable pub real_newfstatat : Text → M K.State Stat
  real_newfstatat path =
      call K Shape.stat (record { op = Op.newfstatat; paths = path ∷ []; args = [] })

  unfoldable pub real_realpath : Text → M K.State Text
  real_realpath path = call K Shape.text (record { op = Op.realpath; paths = path ∷ []; args = [] })

  -- `check_dir`
  unfoldable pub check_dir : Text → M K.State (Option Text)
  unfolding real_newfstatat real_realpath
  check_dir [] = return none
  check_dir (c ∷ path) =
      attempt (real_newfstatat (c ∷ path))
        (λ st.
          if is_directory st.st_mode
          then attempt (real_realpath (c ∷ path)) (λ d. return (some d)) (λ e. return none)
          else return none)
        (λ e. return none)

  -- The first directory among the candidates.
  unfoldable pub first_dir : List Text → M K.State (Option Text)
  unfolding check_dir
  first_dir [] = return none
  first_dir (path ∷ paths) =
      check_dir path >>= λ r. elim r [ some d ↦ return (some d) | none ↦ first_dir paths ]

  -- `HxRoot`, of a root that the environment names.
  unfoldable pub named_root : Text → M K.State Text
  unfolding first_dir real_realpath
  named_root root =
      first_dir (sub_path root (bytes "/rootfs") ∷ sub_path root (bytes "/ROOT") ∷ []) >>= λ r.
      elim r [ some d ↦ return d | none ↦ attempt (real_realpath root) return (λ e. return root) ]

  -- `setenv(name, v, 1)`, whatever it returns.
  unfoldable pub set_env : Text → Text → M K.State ℕ
  set_env name v =
      attempt (host K Op.setenv [] (str name ∷ str v ∷ word 1 ∷ [])) return
        (λ e. return (2 ^ 32 - 1))

  -- `HxRoot` where it names none.
  unfoldable pub detect_root : M K.State (Option Text)
  unfolding first_dir set_env
  detect_root =
      first_dir (bytes "rootfs" ∷ bytes "../rootfs" ∷ bytes "ROOT" ∷ bytes "../ROOT" ∷ []) >>= λ r.
      elim r [
        | none ↦ return none
        | some d ↦ set_env (bytes "FAKECHROOT_BASE") d >>= λ _.
            set_env (bytes "HxRoot") d >>= λ _. return (some d)
      ]

  unfoldable pub find_root : List Text → M K.State (Option Text)
  unfolding env_or named_root detect_root
  find_root env = elim (env_or env (bytes "FAKECHROOT_BASE") (bytes "HxRoot")) [
    | some root ↦ named_root root >>= λ d. return (some d)
    | none ↦ detect_root
  ]

  -- The text of the binds.
  unfoldable pub binds_text : List Text → M K.State Text
  unfolding env_or real_newfstatat
  binds_text env = elim (env_or env (bytes "FAKECHROOT_EXCLUDE_PATH") (bytes "HxBinds")) [
    | some s ↦ return s
    | none ↦
        attempt (real_newfstatat termux_glibc)
          (λ st. return (bytes "/dev:/proc:/sys:/data/data/com.termux/files/usr/glibc"))
          (λ e. return (bytes "/dev:/proc:/sys"))
  ]

  -- `HxDoInit`, of `environ`. What it sets there itself it does not read again where that matters.
  unfoldable pub init : List Text → M K.State Hx
  unfolding find_root binds_text parse_binds initial_id initial_l2s get_env
  init env = find_root env >>= λ root. binds_text env >>= λ binds. return (record {
    root = root;
    binds = parse_binds binds;
    l2s = initial_l2s env;
    uid = initial_id env root (bytes "HxUid");
    gid = initial_id env root (bytes "HxGid");
    exe = none;
    linker = get_env env (bytes "HxLinker");
    proot = get_env env (bytes "HxProot");
  })
