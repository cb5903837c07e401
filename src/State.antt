-- ===== src/State.antt =====
-- pkg/core/state: what the chain keeps of its accounts, assets, coins, validators and transfers.
pub mod Records
pub mod Roots
pub mod Coins
pub mod TransferLog
pub mod Unclaimed
pub mod Assets
