-- ===== src/Tests.antt =====
-- Runs of the definitions on concrete inputs, and the theorems at inputs where their hypotheses hold.
pub mod Wire
pub mod Engine
pub mod Signatures
pub mod Balances
pub mod Merkle
pub mod Machine
pub mod Chain
pub mod Ledger
pub mod Logs
pub mod Contracts
pub mod Blocks
pub mod Rings
pub mod Amounts
