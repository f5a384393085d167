-- ===== src/Tests.antt =====
-- A concrete server and codec, and the theorems at inputs that meet their hypotheses.
mod Server
mod Enqueueing
mod Histories
mod Descending
mod Waits
mod Working
mod Requests
mod Counting
mod Rows
mod Processes
mod Queueing
mod Beating
