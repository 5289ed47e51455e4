-- ===== src/Users.antt =====
-- The user, group and shadow databases of the guest: src/passwd.c, src/group.c and src/shadow.c.
pub mod Streams
pub mod Passwd
pub mod Group
pub mod Shadow
pub mod Cursor
pub mod CursorLaws
pub mod Laws
pub mod GroupLaws
