-- ===== src/Chain.antt =====
-- src/chain: what the bot believes of the chain, from providers and from its own history.
pub mod Consensus
pub mod Reorg
