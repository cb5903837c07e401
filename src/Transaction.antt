-- ===== src/Transaction.antt =====
-- pkg/core/transaction: the parts of a transaction and their binary form.
pub mod Parts
pub mod AttrUsage
pub mod Attribute
pub mod Payload
pub mod Body
