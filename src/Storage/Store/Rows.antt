-- ===== src/Storage/Store/Rows.antt =====
-- The rows that a mutation of src/storage/actor.rs rewrites or appends, and the lanes they hold.
use rbot_v.Prelude.{
  ℕ, ◌≤◌, Bool, true, false, ◌≡◌, ap, inl, inr, Bool-cases, some, List, [], ◌∷◌, ◌++◌, find, retain,
  update_first, any, count, any-count, count-append, count-update_first-le, arith,
}
use mathlib.Core.Path.{subst}
use rbot_v.Prelude.Find.{count-retain-le}
use rbot_v.Storage.Models.{is_unresolved, NonceReservation, TransactionRow}
use rbot_v.Storage.Store.{has_id, owns_lane, fresh_row}

-- Each signer has one unresolved transaction at most, and each identifier one row at most.
pub record HasLanes (rows : List TransactionRow) : Type 0 where
  pub lane : (signer : ℕ) → count (owns_lane signer) rows ≤ 1
  pub unique : (id : ℕ) → count (has_id id) rows ≤ 1

pub kept-owns_lane :
    (signer : ℕ) (x y : TransactionRow)
    → y.reservation ≡ x.reservation
    → (is_unresolved y.state ≡ true → is_unresolved x.state ≡ true)
    → owns_lane signer y ≡ true
    → owns_lane signer x ≡ true
kept-owns_lane signer x y kept lane h = ground (arith, lane, kept, ap (λ r. r.signer) kept)

pub kept-has_id :
    (id : ℕ) (x y : TransactionRow)
    → y.reservation ≡ x.reservation
    → has_id id y ≡ true
    → has_id id x ≡ true
kept-has_id id x y kept h = ground (arith, kept, ap (λ r. r.transaction_id) kept)

-- A row that keeps its reservation and takes no lane may replace the row that was found.
pub update-HasLanes :
    (id : ℕ) (f : TransactionRow → TransactionRow) (rows : List TransactionRow) (x : TransactionRow)
    → find (has_id id) rows ≡ some x
    → (f x).reservation ≡ x.reservation
    → (is_unresolved (f x).state ≡ true → is_unresolved x.state ≡ true)
    → HasLanes rows
    → HasLanes (update_first (has_id id) f rows)
update-HasLanes id f rows x found kept lane h = record {
  lane = λ signer. omega (
    arith,
    h.lane signer,
    count-update_first-le (owns_lane signer) (has_id id) f rows x found
        (kept-owns_lane signer x (f x) kept lane),
  );
  unique = λ i. omega (
    arith,
    h.unique i,
    count-update_first-le (has_id i) (has_id id) f rows x found (kept-has_id i x (f x) kept),
  );
}

-- A new row raises a count of its own kind only, which was zero.
pub one_more :
    (p : TransactionRow → Bool) (rows : List TransactionRow) (x : TransactionRow)
    → count p rows ≤ 1
    → (p x ≡ true → any p rows ≡ false)
    → count p (rows ++ (x ∷ [])) ≤ 1
one_more p rows x h new = elim (Bool-cases (p x)) [
  | inl fits ↦ ground (arith, fits, count-append p rows (x ∷ []), any-count p rows (new fits))
  | inr other ↦ ground (arith, other, h, count-append p rows (x ∷ []))
]

pub append-HasLanes :
    (r : NonceReservation) (rows : List TransactionRow)
    → any (owns_lane r.signer) rows ≡ false
    → any (has_id r.transaction_id) rows ≡ false
    → HasLanes rows
    → HasLanes (rows ++ (fresh_row r ∷ []))
append-HasLanes r rows free fresh h = record {
  lane = λ signer.
      one_more (owns_lane signer) rows (fresh_row r) (h.lane signer)
        (λ own. subst (λ k. any (owns_lane k) rows ≡ false) (own_signer signer own) free);
  unique = λ i.
      one_more (has_id i) rows (fresh_row r) (h.unique i)
        (λ own. subst (λ k. any (has_id k) rows ≡ false) (own_id i own) fresh);
}
  where
    own_signer : (signer : ℕ) → owns_lane signer (fresh_row r) ≡ true → r.signer ≡ signer
    own_signer signer own = ground arith

    own_id : (i : ℕ) → has_id i (fresh_row r) ≡ true → r.transaction_id ≡ i
    own_id i own = ground arith

-- Rows that are dropped free their lanes.
pub retain-HasLanes :
    (q : TransactionRow → Bool) (rows : List TransactionRow)
    → HasLanes rows
    → HasLanes (retain q rows)
retain-HasLanes q rows h = record {
  lane = λ signer. omega (arith, h.lane signer, count-retain-le (owns_lane signer) q rows);
  unique = λ id. omega (arith, h.unique id, count-retain-le (has_id id) q rows);
}
