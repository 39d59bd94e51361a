-- ===== src/Tests.antt =====
-- Runs of the definitions at concrete inputs, and the applications of the theorems to them.
mod Morpho
mod Policies
mod Episodes
mod Store
mod Ledger
mod Planner
mod Chain
mod Firewall
mod Accounting
