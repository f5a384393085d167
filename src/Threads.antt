-- ===== src/Threads.antt =====
-- tasklib/threads.go: the life of a thread.
pub mod Descendants
pub mod State
