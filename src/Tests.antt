-- ===== src/Tests.antt =====
-- Runs of the definitions on data that is written out.
mod Data
mod Strokes
mod Rules
mod Charges
mod Limiters
mod Requests
mod Buckets
mod Cursors
mod Tokens
mod Sessions
mod Guards
mod Accounts
mod Validation
mod Fields
mod Standing
mod Mails
mod Doors
