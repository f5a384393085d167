-- ===== src/Tokens.antt =====
-- tasklib/tokens.go: what the agents print, the tokens that they report, and the counters.
pub mod Lines
pub mod Agents
pub mod Providers
pub mod Counters
pub mod Normal
pub mod Sums
pub mod Totals
pub mod Last
pub mod Merged
pub mod Bumps
pub mod Stored
