-- ===== src/Examples.antt =====
-- The theorems at runs on the platform in memory.
mod Scenario
mod Tokens
mod Accounts
mod Requests
mod Once
mod Limits
mod Browser
mod Refreshing
mod Entering
mod Leaving
mod Routing
mod Starting
