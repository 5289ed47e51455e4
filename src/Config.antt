-- ===== src/Config.antt =====
-- The settings of src/hxroot.c: the globals that `HxDoInit` fills and the wrappers read.
pub mod Init
pub mod InitLaws
use hxroot.Base.{ℕ, ◌-◌, ◌^◌, Bool, ◌&&◌, Option, List, ◌==◌, if◌then◌else◌, Text}

pub record Hx : Type 0 where
  pub root : Option Text  -- HxRoot, with HxRootLen its length
  pub binds : List Text  -- HxBinds, up to its null entry
  pub l2s : Bool  -- HxL2s
  pub uid : ℕ  -- HxUid, as the 32-bit pattern of the int
  pub gid : ℕ  -- HxGid, likewise
  pub exe : Option Text  -- HxExe, with HxExeLen its length
  pub linker : Option Text  -- HxLinker
  pub proot : Option Text  -- HxProot

-- -1 in `HxUid` and `HxGid`, and as a `uid_t`
abbrev pub unset : ℕ
unset = 2 ^ 32 - 1

-- `HxUid == 0 && HxGid == 0`
abbrev pub is_fake_root : Hx → Bool
is_fake_root h = h.uid == 0 && h.gid == 0

-- `if(HxUid != -1) x = HxUid;` and the same for `HxGid`
abbrev pub or_real : ℕ → ℕ → ℕ
or_real faked real = if faked == unset then real else faked
