-- ===== src/Tests.antt =====
-- Concrete runs of the program's parts, on tables that are kept in memory.
mod Data
mod Sending
mod Reading
mod Groups
mod Gateway
mod Tokens
mod Sessions
mod Identities
mod Logins
mod Listings
mod Scans
mod Clients
mod Limits
mod Lives
