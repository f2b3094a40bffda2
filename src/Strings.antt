-- ===== src/Strings.antt =====
-- common/usg_common.cpp: the string helpers.
pub mod Buffer
pub mod Trim
pub mod Join
pub mod Split
pub mod Search
