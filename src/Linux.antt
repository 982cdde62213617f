-- ===== src/Linux.antt =====
-- Constants that the program takes from the headers of Linux, with their values on x86-64.
pub mod Ms
pub mod Clone
pub mod Errno
pub mod Open
pub mod Magic
