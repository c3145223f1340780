-- ===== src/Tests.antt =====
-- The theorems at small concrete databases.
mod Data
mod Settlement
mod Rounds
mod Betting
mod Predicting
mod Pricing
mod Retrying
mod Claiming
mod Playing
mod Delivering
mod Leading
mod Reconnecting
