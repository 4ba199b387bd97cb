-- ===== src/Runs.antt =====
-- Concrete runs of every part, and each theorem at a concrete input.
mod Frames
mod Streaming
mod Retry
mod Paced
mod Streamed
mod Service
mod Tls
mod Demo
mod Events
mod Wait
mod Command
