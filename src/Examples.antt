-- ===== src/Examples.antt =====
-- The theorems at concrete inputs.
mod Queues
mod Calls
mod Uploads
mod Streams
mod Sockets
mod Starts
mod Api
mod Tasks
mod Texts
mod Boards
mod Handovers
