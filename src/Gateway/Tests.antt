-- ===== src/Gateway/Tests.antt =====
-- The theorems on the gateway at concrete inputs, and runs of it.
mod Accounts
mod Audit
mod Counter
