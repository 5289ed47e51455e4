-- ===== src/Ids/Set.antt =====
-- src/setuid.c. Each function returns 0; its value here is the settings that it leaves.
use hxroot.Files.Names.{ignoring}
use hxroot.Sys.{return, M, Kernel, word, str, decimal, host, Op}
use hxroot.Config.{Hx, unset}
use hxroot.Base.{ℕ, [], ◌∷◌, ◌==◌, if◌then◌else◌, bytes}

module _ (K : Kernel) (h : Hx) where
  -- `HxSetUid`
  unfoldable pub set_uid : ℕ → M K.State Hx
  unfolding ignoring
  set_uid u =
      if h.uid == u
      then return h
      else ignoring (host K Op.setenv [] (str (bytes "HxUid") ∷ decimal u ∷ word 1 ∷ []))
          (return (record h { uid = u }))

  -- `HxSetGid`
  unfoldable pub set_gid : ℕ → M K.State Hx
  unfolding ignoring
  set_gid g =
      if h.gid == g
      then return h
      else ignoring (host K Op.setenv [] (str (bytes "HxGid") ∷ decimal g ∷ word 1 ∷ []))
          (return (record h { gid = g }))

  unfoldable pub setuid : ℕ → M K.State Hx
  unfolding set_uid
  setuid uid = set_uid uid

  unfoldable pub setgid : ℕ → M K.State Hx
  unfolding set_gid
  setgid gid = set_gid gid

  unfoldable pub seteuid : ℕ → M K.State Hx
  unfolding set_uid
  seteuid euid = set_uid euid

  unfoldable pub setegid : ℕ → M K.State Hx
  unfolding set_gid
  setegid egid = set_gid egid

  unfoldable pub setreuid : ℕ → ℕ → M K.State Hx
  unfolding set_uid
  setreuid ruid euid = if ruid == unset then return h else set_uid ruid

  unfoldable pub setregid : ℕ → ℕ → M K.State Hx
  unfolding set_gid
  setregid rgid egid = if rgid == unset then return h else set_gid rgid

  unfoldable pub setresuid : ℕ → ℕ → ℕ → M K.State Hx
  unfolding set_uid
  setresuid ruid euid suid = if ruid == unset then return h else set_uid ruid

  unfoldable pub setresgid : ℕ → ℕ → ℕ → M K.State Hx
  unfolding set_gid
  setresgid rgid egid sgid = if rgid == unset then return h else set_gid rgid
