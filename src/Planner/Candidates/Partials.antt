-- ===== src/Planner/Candidates/Partials.antt =====
-- What the loops of src/planner/candidates.rs keep of the partial selections.
use rbot_v.Prelude.{
  ℕ, suc, ◌+◌, ◌≤◌, ◌≡◌, ◌≢◌, refl, sym, ◌∙◌, Bool, true, false, Option, none, some, List, [], ◌∷◌,
  ◌++◌, arith, length, All, All-map, All-append, sum, and_then, and_then-some, some_injective,
  try_fold, try_fold_keeps, ltb, leb, ◌==◌, if◌then◌else◌,
}
use mathlib.Core.Path.{subst}
use rbot_v.Prelude.Words.{checked_add}
use rbot_v.Planner.Candidates.{
  set_elem, zeros, Partial, push_candidate, extend_partial, extend_lattices,
}
use rbot_v.Planner.Candidates.Writes.{
  IsClear, set_elem-sum, set_elem-other, set_elem-AtMost, zeros-IsClear, zeros-sum, zeros-AtMost,
  FitsAt, AtMost, LatticesFit,
}

module _ (maximums : List ℕ) (total sink : ℕ) where
  -- A partial selection before the lattice of an index: it fits, its sum, which is at most the
  -- total, and that the sink and the indices still to come are clear.
  pub record IsPartial (index : ℕ) (partial : Partial) : Type 0 where
    pub fits : AtMost partial.0 maximums
    pub summed : sum partial.0 ≡ partial.1
    pub bounded : partial.1 ≤ total
    pub clear_sink : IsClear sink partial.0
    pub clear_rest : (later : ℕ) → index ≤ later → IsClear later partial.0

  pub zeros-IsPartial : IsPartial 0 (zeros maximums, 0)
  zeros-IsPartial = record {
    fits = zeros-AtMost maximums;
    summed = zeros-sum maximums;
    bounded = omega arith;
    clear_sink = zeros-IsClear sink maximums;
    clear_rest = λ later _. zeros-IsClear later maximums;
  }

  next_index :
      (index : ℕ) (partial : Partial) → IsPartial index partial → IsPartial (suc index) partial
  next_index index partial p = record {
    fits = p.fits;
    summed = p.summed;
    bounded = p.bounded;
    clear_sink = p.clear_sink;
    clear_rest = λ later h. p.clear_rest later (omega (arith, h));
  }

  write-IsPartial :
      (index amount updated : ℕ) (partial : Partial) (candidate : List ℕ)
      → FitsAt maximums index amount
      → index ≢ sink
      → IsPartial index partial
      → updated ≡ partial.1 + amount
      → updated ≤ total
      → set_elem index amount partial.0 ≡ some candidate
      → IsPartial (suc index) (candidate, updated)
  write-IsPartial index amount updated partial candidate allowed ne p e h k =
      let (old, at, total_of) = set_elem-sum index amount partial.0 candidate k in
      record {
        fits = set_elem-AtMost index amount partial.0 maximums candidate k allowed p.fits;
        summed = omega (arith, total_of, p.summed, p.clear_rest index (omega arith) old at);
        bounded = h;
        clear_sink = λ v q.
            p.clear_sink v (sym (set_elem-other index amount sink partial.0 candidate k ne) ∙ q);
        clear_rest = λ later after v q. p.clear_rest later (omega (arith, after)) v (
            sym (
              set_elem-other index amount later partial.0 candidate k
                (λ same. omega (arith, same, after)))
            ∙ q);
      }

  checked_add-some : (a b c : ℕ) → checked_add a b ≡ some c → c ≡ a + b
  checked_add-some a b c h = ground arith

  push_candidate_keeps :
      (limit index amount : ℕ) (partial : Partial) (sum : Option ℕ) (next after : List Partial)
      → FitsAt maximums index amount
      → index ≢ sink
      → IsPartial index partial
      → checked_add partial.1 amount ≡ sum
      → All (IsPartial (suc index)) next
      → push_candidate total limit index partial.0 amount sum next ≡ some after
      → All (IsPartial (suc index)) after
  unfolding push_candidate
  push_candidate_keeps limit index amount partial none next after allowed ne p e kept h =
      subst (All (IsPartial (suc index))) (some_injective h) kept
  push_candidate_keeps limit index amount partial (some updated) next after allowed ne p e kept h =
      go (ltb total updated) (leb limit (length next)) refl h
    where
      go :
          (above full : Bool)
          → ltb total updated ≡ above
          → (if above
              then some next
              else if full
              then none
              else and_then
                  (set_elem index amount partial.0)
                  (λ candidate. some (next ++ ((candidate, updated) ∷ []))))
            ≡ some after
          → All (IsPartial (suc index)) after
      go true full a h = subst (All (IsPartial (suc index))) (some_injective h) kept
      go false true a h = cc
      go false false a h =
          let (candidate, k, same) =
            and_then-some (set_elem index amount partial.0)
              (λ candidate. some (next ++ ((candidate, updated) ∷ []))) h in
          subst (All (IsPartial (suc index))) (some_injective same) (
            All-append (IsPartial (suc index)) next ((candidate, updated) ∷ []) kept (
              write-IsPartial index amount updated partial candidate allowed ne p
                  (checked_add-some partial.1 amount updated e) (ground arith) k,
              tt,
            ))

  extend_partial_keeps :
      (limit index : ℕ) (amounts : List ℕ) (partial : Partial) (next after : List Partial)
      → All (FitsAt maximums index) amounts
      → index ≢ sink
      → IsPartial index partial
      → All (IsPartial (suc index)) next
      → extend_partial total limit index amounts partial next ≡ some after
      → All (IsPartial (suc index)) after
  unfolding extend_partial
  extend_partial_keeps limit index amounts partial next after allowed ne p kept h =
      try_fold_keeps
        (λ amount. push_candidate total limit index partial.0 amount (checked_add partial.1 amount))
        (FitsAt maximums index) (All (IsPartial (suc index)))
        (λ amount next after allowed kept.
          push_candidate_keeps limit index amount partial (checked_add partial.1 amount) next after
            allowed ne p refl kept)
        amounts next after allowed kept h

  extend_lattice_keeps :
      (limit index : ℕ) (amounts : List ℕ) (skip : Bool) (partials after : List Partial)
      → All (FitsAt maximums index) amounts
      → (index == sink) ≡ skip
      → All (IsPartial index) partials
      → (if skip
          then some partials
          else try_fold (extend_partial total limit index amounts) partials [])
        ≡ some after
      → All (IsPartial (suc index)) after
  extend_lattice_keeps limit index amounts true partials after allowed e kept h =
      subst (All (IsPartial (suc index))) (some_injective h)
        (All-map (IsPartial index) (IsPartial (suc index)) (next_index index) partials kept)
  extend_lattice_keeps limit index amounts false partials after allowed e kept h =
      try_fold_keeps (extend_partial total limit index amounts) (IsPartial index)
        (All (IsPartial (suc index)))
        (λ partial next after p.
          extend_partial_keeps limit index amounts partial next after allowed (λ same. ground arith)
            p)
        partials [] after kept tt h

  -- After all the lattices each partial selection is still within the total.
  pub extend_lattices_keeps :
      (limit index : ℕ) (lattices : List (List ℕ)) (partials after : List Partial)
      → LatticesFit maximums index lattices
      → All (IsPartial index) partials
      → extend_lattices total limit sink index lattices partials ≡ some after
      → (end : ℕ) × All (IsPartial end) after
  unfolding extend_lattices
  extend_lattices_keeps limit index [] partials after allowed kept h =
      (index, subst (All (IsPartial index)) (some_injective h) kept)
  extend_lattices_keeps limit index (amounts ∷ lattices) partials after (allowed, rest) kept h =
      let (next, e, k) =
        and_then-some
          (if index == sink
            then some partials
            else try_fold (extend_partial total limit index amounts) partials [])
          (extend_lattices total limit sink (suc index) lattices) h in
      extend_lattices_keeps limit (suc index) lattices next after rest
        (extend_lattice_keeps limit index amounts (index == sink) partials next allowed refl kept e)
        k
