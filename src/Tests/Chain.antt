-- ===== src/Tests/Chain.antt =====
-- Runs of the provider consensus and of the search for a common ancestor.
use rbot_v.Prelude.{
  ℕ, ◌+◌, Bool, true, Option, none, some, List, [], ◌∷◌, Result, ok, err, ◌≡◌, ◌==◌, ==_iff, leb,
  if◌then◌else◌,
}
use rbot_v.Domain.{BlockRef}
use rbot_v.Chain.Consensus.{View, Selects, select_consistent_optional_view-Selects}
use rbot_v.Chain.Reorg.{CanonicalBlockRecord, ChainError}
use rbot_v.Prelude.Words.{u256_limit}
use rbot_v.Prelude.Int.{i256_limit}
use rbot_v.Chain.Consensus.{conclude, select_loop, select_consistent_optional_view}
use rbot_v.Chain.Reorg.{compare_at, search_from, attempts_of, find_common_ancestor}

abbrev same_number : ℕ → ℕ → Bool
same_number a b = a == b

same_number_lem : (a b : ℕ) → same_number a b ≡ true → a ≡ b
same_number_lem a b h = (==_iff a b).0 h

abbrev views : List (View ℕ ℕ)
views = err 3 ∷ ok none ∷ ok (some 7) ∷ err 4 ∷ ok (some 7) ∷ []

select_consistent_optional_view-Selects_example :
    Selects same_number views (select_consistent_optional_view same_number views)
unfolding u256_limit i256_limit conclude select_loop select_consistent_optional_view compare_at
    search_from attempts_of find_common_ancestor
select_consistent_optional_view-Selects_example =
    select_consistent_optional_view-Selects same_number same_number_lem views

-- The provider's chain, and a history that left it after block 8.
abbrev block_at : ℕ → BlockRef
block_at height = record {
  number = height;
  hash = 100 + height;
  parent_hash = 99 + height;
  timestamp = height;
  gas_limit = 0;
}

abbrev header : ℕ → Result (ChainError ℕ) BlockRef
header height = ok (block_at height)

abbrev stored : ℕ → Result (ChainError ℕ) (Option CanonicalBlockRecord)
stored height = ok (some (record { hash = if leb height 8 then 100 + height else height }))
