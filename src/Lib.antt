-- ===== src/Lib.antt =====
-- A verification library for the reallocator: a bot that moves the assets of Morpho vaults between
-- markets. The files model the parts of the program that decide and account, and leave out the
-- network, the disk and the keys. Paths below are from the repository's root.
--
-- The parts and where they are:
-- - Domain: the records of src/domain.rs that the parts share.
-- - Morpho: the exact arithmetic of the protocol. BlueMath is src/morpho/blue_math.rs, AdaptiveCurve
--   is src/morpho/adaptive_curve.rs, Fees is src/morpho/fees.rs (accrue_market), VaultV2 is
--   src/morpho/vault_v2.rs (accrue_parent_view), MarketAdapter is src/morpho/market_adapter.rs
--   (allocate and deallocate on an accrued market). Fees and MarketAdapter call the curve, which
--   calls the fixed-point operations.
-- - Planner.Episodes: the rate episodes of src/planner/episodes.rs: their data and start (State),
--   the short confirmation (Confirmation), the independent events (Events) and the movement budget
--   (Budget, with every call as a command in Budget.Commands). The planner asks an episode for a
--   budget, and the store books movements on it.
-- - Planner.Objective is src/planner/objective.rs (ranks_before; the spreads in Objective.Spread),
--   Planner.Scheduler is src/planner/scheduler.rs (proofs in Scheduler.Resources and
--   Scheduler.Choice), Planner.Lattice and Planner.Candidates
--   are build_candidate_lattice and bounded_distributions of src/planner/candidates.rs, with their
--   proofs in the modules below them.
-- - Chain: Consensus is src/chain/provider_consensus.rs, Reorg is src/chain/reorg.rs.
-- - Storage: the transaction lifecycle. Models is the graph and the records of
--   src/storage/models.rs; Store and Store.Movements are the mutations of src/storage/actor.rs on
--   the collections of JsonState, Store.Compaction is compact_lifecycle_history and the plan part of
--   compact_hot_state, and Store.Commands is the commit, which compacts at the end of every segment
--   of the journal; Graph, Store.Outcomes, Store.Rows, Store.Lanes, Store.Lifecycles and
--   Store.Accounting are the proofs. The reservation and the release of a movement call
--   Planner.Episodes.Budget.
-- - State: Attribution is src/state/attribution.rs, IdleLocks is src/state/idle_locks.rs, which
--   calls it, and Caps is src/state/caps.rs.
-- - Transaction: Plan has the plans of src/domain.rs and the vaults of src/config.rs, Firewall is the
--   plan part of src/transaction/firewall.rs (validate_plan down to validate_actions; proofs in
--   Firewall.Actions and Firewall.Plans), Calldata is src/transaction/encoder.rs and
--   src/transaction/decoder.rs (proofs in Calldata.Codec and Calldata.RoundTrip), Envelope is
--   validate_routine_transaction, which calls the decoder on what the firewall let pass. Fees is
--   src/transaction/fees.rs, Pending is the policy of src/transaction/pending.rs, Recovery is the
--   startup classification of src/transaction/lifecycle.rs.
-- - Runtime: Readiness is the gate of src/runtime/readiness.rs.
-- - Prelude: helpers; Tests: runs at concrete inputs.
--
-- How the code is represented: U256, u128, u64 and u32 values are natural numbers, and each checked
-- or saturating operation has its limit written out; I256 values are integers with the range tested
-- after each operation. Addresses, hashes and identifiers are compared only, so they are numbers.
-- Sets and maps are lists. A function that returns a Result is a function into Result; a method that
-- may write before it fails returns its new state on every path (Prelude.Actions, and pairs in
-- State.IdleLocks). A mutation of the store runs on a copy that is kept on success only, so there
-- it is a function from a state to a Result. Loops are structural recursions on the list they walk,
-- so no fuel is needed.
--
-- Parameters: the hash function over a list of fields, the JSON encoding of a plan, the shifts of
-- I256, and the calls of a provider and of the history are library or outside code and are
-- arguments; nothing is assumed of them. The ABI codec is a record of functions (Transaction.Plan):
-- what is assumed of it is IsAbi (Calldata.Codec), that each call decodes to its own arguments
-- and has its own selector, and a codec that keeps it is in Tests.Firewall. The providers' values
-- are compared by a function of which the selection needs that what it calls equal is equal.
--
-- Not modelled: provider clients, event decoding, signers, files and the journal; the planner's
-- simulation and its search over plans; snapshots and topology; in the store, the commands that
-- reconcile a transaction, fail it after its conformance or rewind the chain, and the collections
-- that no modelled mutation reads. The results on runs of the store are about runs of the modelled
-- commands: a rewind orphans terminal transactions, which no permitted transition does and which
-- may leave a signer with several that are unresolved. A commit is given the latest timestamp of the
-- canonical blocks and whether the journal could be written.
pub mod Prelude
pub mod Chain
pub mod Domain
pub mod Morpho
pub mod Planner
pub mod State
pub mod Storage
pub mod Transaction
pub mod Runtime
pub mod Tests
