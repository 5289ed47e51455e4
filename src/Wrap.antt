-- ===== src/Wrap.antt =====
-- The wrappers that only rewrite paths: one definition for each C function, and the shared promise.
pub mod Dirs
pub mod Meta
pub mod Attrs
pub mod Request
pub mod Dispatch
pub mod Laws
