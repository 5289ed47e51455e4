-- ===== src/Wrap/Dispatch.antt =====
-- What a process gets that calls one of these library functions: the wrapper of that name.
use hxroot.Base.{ℕ}
use hxroot.Config.{Hx}
use hxroot.Sys.{M, Kernel}
use hxroot.Wrap.Request.{Request}
use hxroot.Wrap.Dirs.{
  mkdir, mkdirat, mkfifo, mkfifoat, chdir, rmdir, symlink, symlinkat, opendir, scandir, scandirat,
  setmntent, statfs, statvfs, creat, freopen,
}
use hxroot.Wrap.Meta.{
  access, faccessat, euidaccess, chmod, lchmod, fchmodat, utime, utimes, lutimes, utimensat,
}
use hxroot.Wrap.Attrs.{
  attr_get, attr_set, attr_remove, attr_list, attr_multi, listxattr, llistxattr, getxattr,
  lgetxattr, setxattr, lsetxattr, removexattr, lremovexattr,
}

module _ (K : Kernel) (h : Hx) where
  unfoldable pub dispatch : Request → M K.State ℕ
  unfolding mkdir mkdirat mkfifo mkfifoat chdir rmdir symlink symlinkat opendir scandir scandirat
      setmntent statfs statvfs creat freopen access faccessat euidaccess chmod lchmod fchmodat utime
      utimes lutimes utimensat attr_get attr_set attr_remove attr_list attr_multi listxattr
      llistxattr getxattr lgetxattr setxattr lsetxattr removexattr lremovexattr
  dispatch (Request.mkdir path mode) = mkdir K h path mode
  dispatch (Request.mkdirat fd path mode) = mkdirat K h fd path mode
  dispatch (Request.mkfifo path mode) = mkfifo K h path mode
  dispatch (Request.mkfifoat dirfd path mode) = mkfifoat K h dirfd path mode
  dispatch (Request.chdir path) = chdir K h path
  dispatch (Request.rmdir path) = rmdir K h path
  dispatch (Request.symlink target linkpath) = symlink K h target linkpath
  dispatch (Request.symlinkat target newdirfd linkpath) = symlinkat K h target newdirfd linkpath
  dispatch (Request.opendir name) = opendir K h name
  dispatch (Request.scandir dirp namelist filter_fn compar) =
      scandir K h dirp namelist filter_fn compar
  dispatch (Request.scandirat dirfd dirp namelist filter_fn compar) =
      scandirat K h dirfd dirp namelist filter_fn compar
  dispatch (Request.setmntent path kind) = setmntent K h path kind
  dispatch (Request.statfs path buf) = statfs K h path buf
  dispatch (Request.statvfs path buf) = statvfs K h path buf
  dispatch (Request.creat path mode) = creat K h path mode
  dispatch (Request.freopen path mode stream) = freopen K h path mode stream
  dispatch (Request.access path mode) = access K h path mode
  dispatch (Request.faccessat dirfd path mode flags) = faccessat K h dirfd path mode flags
  dispatch (Request.euidaccess path mode) = euidaccess K h path mode
  dispatch (Request.chmod path mode) = chmod K h path mode
  dispatch (Request.lchmod path mode) = lchmod K h path mode
  dispatch (Request.fchmodat fd path mode flag) = fchmodat K h fd path mode flag
  dispatch (Request.utime path times) = utime K h path times
  dispatch (Request.utimes path times) = utimes K h path times
  dispatch (Request.lutimes path times) = lutimes K h path times
  dispatch (Request.utimensat dirfd path times flags) = utimensat K h dirfd path times flags
  dispatch (Request.attr_get path attrname attrvalue valuelength flags) =
      attr_get K h path attrname attrvalue valuelength flags
  dispatch (Request.attr_set path attrname attrvalue valuelength flags) =
      attr_set K h path attrname attrvalue valuelength flags
  dispatch (Request.attr_remove path attrname flags) = attr_remove K h path attrname flags
  dispatch (Request.attr_list path buffer buffersize flags cursor) =
      attr_list K h path buffer buffersize flags cursor
  dispatch (Request.attr_multi path oplist count flags) = attr_multi K h path oplist count flags
  dispatch (Request.listxattr path list size) = listxattr K h path list size
  dispatch (Request.llistxattr path list size) = llistxattr K h path list size
  dispatch (Request.getxattr path name value size) = getxattr K h path name value size
  dispatch (Request.lgetxattr path name value size) = lgetxattr K h path name value size
  dispatch (Request.setxattr path name value size flags) = setxattr K h path name value size flags
  dispatch (Request.lsetxattr path name value size flags) = lsetxattr K h path name value size flags
  dispatch (Request.removexattr path name) = removexattr K h path name
  dispatch (Request.lremovexattr path name) = lremovexattr K h path name
