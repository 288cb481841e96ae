-- ===== src/Remote.antt =====
-- Package loader/remote: the channel to plugins in other processes.
pub mod Stream
pub mod Frame
pub mod Session
