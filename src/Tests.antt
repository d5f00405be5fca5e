-- ===== src/Tests.antt =====
-- Runs of the model, and each property at a concrete input.
mod Parsing
mod Memory
mod Tables
mod Activating
mod Stored
mod Publishing
mod Running
mod Halfway
mod Paged
mod Lexing
mod Parsed
mod Ingested
mod Others
mod Serving
