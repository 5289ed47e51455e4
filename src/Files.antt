-- ===== src/Files.antt =====
-- The wrappers that read names back, open and make files, and keep link counts.
pub mod Names
pub mod Readlink
pub mod Stat
pub mod Open
pub mod Recursion
pub mod Temp
pub mod Loading
pub mod Socket
pub mod Credentials
pub mod CredentialsLaws
pub mod OpenLaws
pub mod Fuel
pub mod TempLaws
pub mod SocketLaws
pub mod Laws
