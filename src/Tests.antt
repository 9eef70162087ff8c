-- ===== src/Tests.antt =====
-- The theorems at concrete inputs, and runs of the code.
mod Tokens
mod Scene
mod Sessions
mod Renewal
mod Accounts
mod Limits
mod Matches
mod Games
mod Board
