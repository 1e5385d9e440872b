-- ===== src/Lab.antt =====
-- The trading laboratory: the entry, filter, regime, stake, risk and statistics models that
-- `main.py` wires together, one child module for each Python file, and the event handler.
pub mod Market
pub mod Stake
pub mod Risk
pub mod Stats
pub mod Entry
pub mod Filter
pub mod Regime
pub mod Engine
