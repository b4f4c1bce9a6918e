-- ===== src/Tests.antt =====
-- The theorems at concrete inputs, and runs of the definitions.
mod Conversation
mod Demo
mod Drip
mod Interpreter
mod Library
mod Python
mod Receiving
mod Registration
mod Lifecycle
mod Listening
mod Sessions
mod Streams
mod Threads
mod Worker
