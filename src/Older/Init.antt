-- ===== src/Older/Init.antt =====
-- `HxDoInit` of src/src/hxroot.c. `atoi` is the function of libc, with its int as a 32-bit pattern.
use hxroot.Exec.Env.{get_env}
use hxroot.Base.Words.{tokens}
use hxroot.Config.{Hx, unset}
use hxroot.Base.{ℕ, Bool, false, not, ◌||◌, none, some, List, [], ◌==◌, take, Text, bytes}

-- `HxBinds`
unfoldable pub old_parse_binds : Text → List Text
unfolding tokens
old_parse_binds s = take 16 (tokens (λ c. c == b' ' || c == b'\n') s)

-- A variable that is unset leaves the array empty.
unfoldable pub old_binds : List Text → List Text
unfolding get_env old_parse_binds
old_binds env = elim (get_env env (bytes "HxBinds")) [ none ↦ [] | some s ↦ old_parse_binds s ]

module _ (atoi : Text → ℕ) where
  -- `HxUid` and `HxGid`
  unfoldable pub old_id : List Text → Text → ℕ
  unfolding get_env
  old_id env name = elim (get_env env name) [ none ↦ unset | some s ↦ atoi s ]

  -- `HxL2s`
  unfoldable pub old_l2s : List Text → Bool
  unfolding get_env
  old_l2s env = elim (get_env env (bytes "HxL2s")) [ none ↦ false | some s ↦ not (atoi s == 0) ]

  -- `HxDoInit`, of `environ`.
  unfoldable pub old_init : List Text → Hx
  unfolding old_binds old_id old_l2s get_env
  old_init env = record {
    root = get_env env (bytes "HxRoot");
    binds = old_binds env;
    l2s = old_l2s env;
    uid = old_id env (bytes "HxUid");
    gid = old_id env (bytes "HxGid");
    exe = none;
    linker = get_env env (bytes "HxLinker");
    proot = get_env env (bytes "HxProot");
  }
