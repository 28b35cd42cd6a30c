-- ===== src/CopyTool.antt =====
-- Homework5 and Homework4: a manager walks a directory and hands files to copying workers.
pub mod Buffer
pub mod Walk
pub mod Limit
pub mod Threads
pub mod Signals
pub mod Barrier
pub mod Main
