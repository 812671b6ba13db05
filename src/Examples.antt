-- ===== src/Examples.antt =====
-- Runs of the models on concrete inputs, and the theorems at inputs that meet their hypotheses.
mod Files
mod Pids
mod Bitmaps
mod Copies
mod Moves
mod Locks
mod Times
mod Growing
mod Names
mod Deadlocks
mod Blocks
mod Threads
