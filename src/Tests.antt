-- ===== src/Tests.antt =====
-- The theorems at concrete inputs, with a small world in place of what the program calls.
mod World
mod Encoding
mod Sockets
mod Deployed
mod Protocol
mod Components
mod Judgement
mod Registration
mod Admission
mod Buffers
mod Chain
mod Setup
mod Tasks
mod Launch
mod Deploy
mod Mutex
mod Lifecycle
mod Events
