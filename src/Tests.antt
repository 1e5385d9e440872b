-- ===== src/Tests.antt =====
-- The theorems at concrete inputs.
mod Trading
mod Trades
mod Models
mod Replays
mod Receiving
mod Archives
mod Campaigns
mod Streams
mod Designs
