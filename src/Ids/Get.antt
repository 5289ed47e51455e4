-- ===== src/Ids/Get.antt =====
-- src/getuid.c
use hxroot.Sys.{return, Kernel, host, M, call, Op, Shape}
use hxroot.Config.{Hx, unset}
use hxroot.Base.{ℕ, [], ◌==◌, if◌then◌else◌}

module _ (K : Kernel) (h : Hx) where
  unfoldable pub getuid : M K.State ℕ
  getuid = if h.uid == unset then host K Op.getuid [] [] else return h.uid

  unfoldable pub geteuid : M K.State ℕ
  geteuid = if h.uid == unset then host K Op.geteuid [] [] else return h.uid

  unfoldable pub getgid : M K.State ℕ
  getgid = if h.gid == unset then host K Op.getgid [] [] else return h.gid

  unfoldable pub getegid : M K.State ℕ
  getegid = if h.gid == unset then host K Op.getegid [] [] else return h.gid

  -- The three ids that are written through the pointers.
  unfoldable pub getresuid : M K.State (ℕ × ℕ × ℕ)
  getresuid =
      if h.uid == unset
      then call K Shape.ids (record { op = Op.getresuid; paths = []; args = [] })
      else return (h.uid, h.uid, h.uid)

  unfoldable pub getresgid : M K.State (ℕ × ℕ × ℕ)
  getresgid =
      if h.gid == unset
      then call K Shape.ids (record { op = Op.getresgid; paths = []; args = [] })
      else return (h.gid, h.gid, h.gid)
