-- ===== src/Older.antt =====
-- The older copy of the sources under src/src. All of its C files but three are those of src to the
-- byte, and one of the three differs in its headers only: here is what differs in src/src/exec.c and
-- src/src/hxroot.c.
pub mod Loader
pub mod Init
pub mod LoaderLaws
