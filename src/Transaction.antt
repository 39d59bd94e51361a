-- ===== src/Transaction.antt =====
-- src/transaction: the plan and its checks, the calldata, the fees, pending transactions and recovery.
pub mod Plan
pub mod Firewall
pub mod Calldata
pub mod Envelope
pub mod Fees
pub mod Pending
pub mod Recovery
