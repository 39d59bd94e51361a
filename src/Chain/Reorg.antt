-- ===== src/Chain/Reorg.antt =====
-- src/chain/reorg.rs: the newest block that the history and the provider have in common. The
-- provider and the storage are parameters, as what each of their calls returns.
use rbot_v.Prelude.{
  ℕ, zero, suc, ◌-◌, ◌<◌, ◌≡◌, ◌⊎◌, false, Option, none, some, Result, ok, err, ◌>>=◌, min, ◌==◌,
  if◌then◌else◌,
}
use rbot_v.Prelude.Words.{saturating_add_u64, saturating_sub}
use rbot_v.Domain.{BlockRef}

-- `CanonicalBlockRecord`: only the hash is read.
pub record CanonicalBlockRecord : Type 0 where
  pub hash : ℕ

-- `ChainError::DeepReorg`, and the errors of the calls.
pub data ChainError (E : Type 0) : Type 0 where
  deep_reorg : ℕ → ChainError E
  call_failed : E → ChainError E

module _ {E : Type 0} (header_by_number : ℕ → Result (ChainError E) BlockRef)
    (load_canonical_block : ℕ → Result (ChainError E) (Option CanonicalBlockRecord)) where
  -- One turn of the loop, with the turns that follow it.
  unfoldable pub compare_at :
      ℕ
      → Result (ChainError E) BlockRef
      → Option CanonicalBlockRecord
      → Result (ChainError E) BlockRef
  compare_at number rest none = rest
  compare_at number rest (some stored) = do
    remote ← header_by_number number
    if stored.hash == remote.hash then ok remote else rest

  unfoldable pub search_from : ℕ → ℕ → ℕ → ℕ → Result (ChainError E) BlockRef
  search_from highest attempts distance zero = err (deep_reorg attempts)
  search_from highest attempts distance (suc left) =
      let rest = search_from highest attempts (suc distance) left in
      load_canonical_block (saturating_sub highest distance)
      >>= compare_at (saturating_sub highest distance) rest

  unfoldable pub attempts_of : ℕ → ℕ → ℕ
  attempts_of highest maximum_rewind =
      min (saturating_add_u64 maximum_rewind 1) (saturating_add_u64 highest 1)

  unfoldable pub find_common_ancestor : BlockRef → BlockRef → ℕ → Result (ChainError E) BlockRef
  find_common_ancestor old_head new_head maximum_rewind =
      let highest = min old_head.number new_head.number in
      let attempts = attempts_of highest maximum_rewind in search_from highest attempts 0 attempts

  -- The history and the provider agree at a height.
  abbrev pub CommonAt : ℕ → BlockRef → Type 0
  CommonAt number remote =
      (stored : CanonicalBlockRecord) × (load_canonical_block number ≡ ok (some stored))
      × (header_by_number number ≡ ok remote)
      × (stored.hash ≡ remote.hash)

  -- They were asked at a height, and do not agree there.
  abbrev pub DiffersAt : ℕ → Type 0
  DiffersAt number =
      (load_canonical_block number ≡ ok none)
      ⊎ ((stored : CanonicalBlockRecord) × (remote : BlockRef) × (load_canonical_block number
            ≡ ok (some stored))
          × (header_by_number number ≡ ok remote)
          × ((stored.hash == remote.hash) ≡ false))

  -- They differ at so many heights, from one downward.
  abbrev pub DifferBelow : ℕ → ℕ → Type 0
  DifferBelow highest zero = Unit
  DifferBelow highest (suc n) = DiffersAt (highest - n) × DifferBelow highest n

  -- What the search has found.
  pub data Finds (highest attempts : ℕ) : Result (ChainError E) BlockRef → Type 0 where
    ancestor :
        (distance : ℕ) (remote : BlockRef)
        → distance < attempts
        → CommonAt (highest - distance) remote
        → DifferBelow highest distance
        → Finds highest attempts (ok remote)
    none_found : DifferBelow highest attempts → Finds highest attempts (err (deep_reorg attempts))
    broken :
        (distance : ℕ) (e : ChainError E)
        → distance < attempts
        → (load_canonical_block (highest - distance) ≡ err e)
          ⊎ (header_by_number (highest - distance) ≡ err e)
        → Finds highest attempts (err e)
