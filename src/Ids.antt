-- ===== src/Ids.antt =====
-- The faked identity: src/getuid.c and src/setuid.c, and the wrappers of src/chown.c that it bends.
pub mod Get
pub mod Set
pub mod Owner
pub mod Laws
