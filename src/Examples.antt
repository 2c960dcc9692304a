-- ===== src/Examples.antt =====
-- Runs of the code at small inputs, and the theorems at inputs where their conditions hold.
mod Messages
mod Packets
mod Cards
mod Receipts
mod Caps
mod Campaigns
mod Publishing
mod Stores
mod Recoveries
