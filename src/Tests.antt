-- ===== src/Tests.antt =====
-- Runs of the program at concrete inputs, with small instances of what it calls.
pub mod Numbers
pub mod Keys
pub mod PyKeys
pub mod Calls
pub mod Instances
pub mod JweTokens
pub mod Tokens
pub mod Encodings
pub mod PasetoTokens
