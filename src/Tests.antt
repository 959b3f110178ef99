-- ===== src/Tests.antt =====
-- The theorems at concrete inputs.
mod Accounts
mod Tenancy
mod Buffer
mod Requests
mod Console
mod Passwords
mod Fetching
mod Sending
mod Recovering
mod Auditing
mod Scanning
