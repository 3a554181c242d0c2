-- ===== src/Tests.antt =====
-- The theorems at concrete inputs, and the definitions on them.
mod Fixtures
mod Control
mod Orders
mod Broker
mod Research
mod Decision
mod Experiments
mod Leaderboard
mod Risk
mod Portfolio
mod Backtest
mod Tally
mod Coding
mod Shadow
mod Safety
mod Reconciliation
