-- ===== src/Util.antt =====
-- dragon/util.c and dragon/util.h: the containers that the compiler is built on.
pub mod Vec
pub mod Hash
pub mod List
pub mod Memory
