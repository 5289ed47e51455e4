-- ===== src/Wrap/Request.antt =====
-- The library calls that only rewrite their paths, as one type, and each as a call of the host.
use hxroot.Base.{ℕ, [], ◌∷◌, Text}
use hxroot.Sys.{Op, word, str, Call}

-- A call by the guest, with the parameters of its C prototype.
pub data Request : Type 0 where
  mkdir : Text → ℕ → Request
  mkdirat : ℕ → Text → ℕ → Request
  mkfifo : Text → ℕ → Request
  mkfifoat : ℕ → Text → ℕ → Request
  chdir : Text → Request
  rmdir : Text → Request
  symlink : Text → Text → Request
  symlinkat : Text → ℕ → Text → Request
  opendir : Text → Request
  scandir : Text → ℕ → ℕ → ℕ → Request
  scandirat : ℕ → Text → ℕ → ℕ → ℕ → Request
  setmntent : Text → Text → Request
  statfs : Text → ℕ → Request
  statvfs : Text → ℕ → Request
  creat : Text → ℕ → Request
  freopen : Text → Text → ℕ → Request
  access : Text → ℕ → Request
  faccessat : ℕ → Text → ℕ → ℕ → Request
  euidaccess : Text → ℕ → Request
  chmod : Text → ℕ → Request
  lchmod : Text → ℕ → Request
  fchmodat : ℕ → Text → ℕ → ℕ → Request
  utime : Text → ℕ → Request
  utimes : Text → ℕ → Request
  lutimes : Text → ℕ → Request
  utimensat : ℕ → Text → ℕ → ℕ → Request
  attr_get : Text → Text → ℕ → ℕ → ℕ → Request
  attr_set : Text → Text → Text → ℕ → ℕ → Request
  attr_remove : Text → Text → ℕ → Request
  attr_list : Text → ℕ → ℕ → ℕ → ℕ → Request
  attr_multi : Text → ℕ → ℕ → ℕ → Request
  listxattr : Text → ℕ → ℕ → Request
  llistxattr : Text → ℕ → ℕ → Request
  getxattr : Text → Text → ℕ → ℕ → Request
  lgetxattr : Text → Text → ℕ → ℕ → Request
  setxattr : Text → Text → ℕ → ℕ → ℕ → Request
  lsetxattr : Text → Text → ℕ → ℕ → ℕ → Request
  removexattr : Text → Text → Request
  lremovexattr : Text → Text → Request

-- The same call, as it would be made of the host.
unfoldable pub encode : Request → Call
encode (Request.mkdir path mode) = record {
  op = Op.mkdir;
  paths = path ∷ [];
  args = word mode ∷ [];
}
encode (Request.mkdirat fd path mode) = record {
  op = Op.mkdirat;
  paths = path ∷ [];
  args = word fd ∷ word mode ∷ [];
}
encode (Request.mkfifo path mode) = record {
  op = Op.mkfifo;
  paths = path ∷ [];
  args = word mode ∷ [];
}
encode (Request.mkfifoat dirfd path mode) = record {
  op = Op.mkfifoat;
  paths = path ∷ [];
  args = word dirfd ∷ word mode ∷ [];
}
encode (Request.chdir path) = record { op = Op.chdir; paths = path ∷ []; args = [] }
encode (Request.rmdir path) = record { op = Op.rmdir; paths = path ∷ []; args = [] }
encode (Request.symlink target linkpath) = record {
  op = Op.symlink;
  paths = target ∷ linkpath ∷ [];
  args = [];
}
encode (Request.symlinkat target newdirfd linkpath) = record {
  op = Op.symlinkat;
  paths = target ∷ linkpath ∷ [];
  args = word newdirfd ∷ [];
}
encode (Request.opendir name) = record { op = Op.opendir; paths = name ∷ []; args = [] }
encode (Request.scandir dirp namelist filter_fn compar) = record {
  op = Op.scandir;
  paths = dirp ∷ [];
  args = word namelist ∷ word filter_fn ∷ word compar ∷ [];
}
encode (Request.scandirat dirfd dirp namelist filter_fn compar) = record {
  op = Op.scandirat;
  paths = dirp ∷ [];
  args = word dirfd ∷ word namelist ∷ word filter_fn ∷ word compar ∷ [];
}
encode (Request.setmntent path kind) = record {
  op = Op.setmntent;
  paths = path ∷ [];
  args = str kind ∷ [];
}
encode (Request.statfs path buf) = record {
  op = Op.statfs;
  paths = path ∷ [];
  args = word buf ∷ [];
}
encode (Request.statvfs path buf) = record {
  op = Op.statvfs;
  paths = path ∷ [];
  args = word buf ∷ [];
}
encode (Request.creat path mode) = record {
  op = Op.creat;
  paths = path ∷ [];
  args = word mode ∷ [];
}
encode (Request.freopen path mode stream) = record {
  op = Op.freopen;
  paths = path ∷ [];
  args = str mode ∷ word stream ∷ [];
}
encode (Request.access path mode) = record {
  op = Op.access;
  paths = path ∷ [];
  args = word mode ∷ [];
}
encode (Request.faccessat dirfd path mode flags) = record {
  op = Op.faccessat;
  paths = path ∷ [];
  args = word dirfd ∷ word mode ∷ word flags ∷ [];
}
encode (Request.euidaccess path mode) = record {
  op = Op.euidaccess;
  paths = path ∷ [];
  args = word mode ∷ [];
}
encode (Request.chmod path mode) = record {
  op = Op.chmod;
  paths = path ∷ [];
  args = word mode ∷ [];
}
encode (Request.lchmod path mode) = record {
  op = Op.lchmod;
  paths = path ∷ [];
  args = word mode ∷ [];
}
encode (Request.fchmodat fd path mode flag) = record {
  op = Op.fchmodat;
  paths = path ∷ [];
  args = word fd ∷ word mode ∷ word flag ∷ [];
}
encode (Request.utime path times) = record {
  op = Op.utime;
  paths = path ∷ [];
  args = word times ∷ [];
}
encode (Request.utimes path times) = record {
  op = Op.utimes;
  paths = path ∷ [];
  args = word times ∷ [];
}
encode (Request.lutimes path times) = record {
  op = Op.lutimes;
  paths = path ∷ [];
  args = word times ∷ [];
}
encode (Request.utimensat dirfd path times flags) = record {
  op = Op.utimensat;
  paths = path ∷ [];
  args = word dirfd ∷ word times ∷ word flags ∷ [];
}
encode (Request.attr_get path attrname attrvalue valuelength flags) = record {
  op = Op.attr_get;
  paths = path ∷ [];
  args = str attrname ∷ word attrvalue ∷ word valuelength ∷ word flags ∷ [];
}
encode (Request.attr_set path attrname attrvalue valuelength flags) = record {
  op = Op.attr_set;
  paths = path ∷ [];
  args = str attrname ∷ str attrvalue ∷ word valuelength ∷ word flags ∷ [];
}
encode (Request.attr_remove path attrname flags) = record {
  op = Op.attr_remove;
  paths = path ∷ [];
  args = str attrname ∷ word flags ∷ [];
}
encode (Request.attr_list path buffer buffersize flags cursor) = record {
  op = Op.attr_list;
  paths = path ∷ [];
  args = word buffer ∷ word buffersize ∷ word flags ∷ word cursor ∷ [];
}
encode (Request.attr_multi path oplist count flags) = record {
  op = Op.attr_multi;
  paths = path ∷ [];
  args = word oplist ∷ word count ∷ word flags ∷ [];
}
encode (Request.listxattr path list size) = record {
  op = Op.listxattr;
  paths = path ∷ [];
  args = word list ∷ word size ∷ [];
}
encode (Request.llistxattr path list size) = record {
  op = Op.llistxattr;
  paths = path ∷ [];
  args = word list ∷ word size ∷ [];
}
encode (Request.getxattr path name value size) = record {
  op = Op.getxattr;
  paths = path ∷ [];
  args = str name ∷ word value ∷ word size ∷ [];
}
encode (Request.lgetxattr path name value size) = record {
  op = Op.lgetxattr;
  paths = path ∷ [];
  args = str name ∷ word value ∷ word size ∷ [];
}
encode (Request.setxattr path name value size flags) = record {
  op = Op.setxattr;
  paths = path ∷ [];
  args = str name ∷ word value ∷ word size ∷ word flags ∷ [];
}
encode (Request.lsetxattr path name value size flags) = record {
  op = Op.lsetxattr;
  paths = path ∷ [];
  args = str name ∷ word value ∷ word size ∷ word flags ∷ [];
}
encode (Request.removexattr path name) = record {
  op = Op.removexattr;
  paths = path ∷ [];
  args = str name ∷ [];
}
encode (Request.lremovexattr path name) = record {
  op = Op.lremovexattr;
  paths = path ∷ [];
  args = str name ∷ [];
}
