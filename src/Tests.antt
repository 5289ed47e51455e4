-- ===== src/Tests.antt =====
-- Hosts, settings and data for the tests: a root `/r` with one bind, and hosts that answer every
-- call alike.
pub mod Paths
pub mod Links
pub mod Files
pub mod Users
pub mod Sems
pub mod Processes
pub mod Exec
pub mod Counter
pub mod Older
use hxroot.Base.{ℕ, ◌+◌, true, false, none, some, [], ◌∷◌, Text, bytes}
use hxroot.Config.{Hx, unset}
use hxroot.Sys.{gives, Shape, Reply, Stat, Statx, Kernel}

abbrev pub jail : Hx
jail = record {
  root = some (bytes "/r");
  binds = bytes "/b" ∷ [];
  l2s = true;
  uid = 0;
  gid = 0;
  exe = none;
  linker = none;
  proot = none;
}

abbrev pub unjailed : Hx
unjailed = record {
  root = none;
  binds = [];
  l2s = false;
  uid = unset;
  gid = unset;
  exe = none;
  linker = none;
  proot = none;
}

abbrev pub a_stat : Stat
a_stat = record {
  st_mode = 0o100644;
  st_nlink = 1;
  st_uid = 1000;
  st_gid = 1000;
  st_size = 5;
  rest = 0;
}

abbrev pub a_statx : Statx
a_statx = record {
  stx_mask = 0;
  stx_mode = 0o100644;
  stx_nlink = 1;
  stx_uid = 1000;
  stx_gid = 1000;
  stx_mnt_id = 7;
  rest = 0;
}

abbrev pub answer : ℕ → Text → (r : Shape) → Reply r
answer n t Shape.number = n
answer n t Shape.text = t
answer n t Shape.texts = t ∷ []
answer n t Shape.stat = a_stat
answer n t Shape.statx = a_statx
answer n t Shape.ids = (n, n, n)
answer n t Shape.named = (n, t)
answer n t Shape.controls = (n, [])
answer n t Shape.info = (n, some t)

-- A host whose every call gives 4, or these bytes, and that counts its calls.
abbrev pub giving : Text → Kernel
giving t = record { State = ℕ; real = λ r c s. (gives (answer 4 t r), s + 1) }
