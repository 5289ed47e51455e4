-- ===== src/Links.antt =====
-- Hard links kept as symbolic links: src/link.c, src/unlink.c and src/rename.c. A linked file lies
-- under a hidden name; every link is a symbolic link to it, and the number of links stands in a
-- count file beside it.
pub mod Names
pub mod Counts
pub mod Unlink
pub mod Rename
pub mod Link
pub mod Laws
pub mod Protocol
pub mod Counter
pub mod Release
pub mod Removal
pub mod Refusals
