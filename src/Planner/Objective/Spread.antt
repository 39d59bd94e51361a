-- ===== src/Planner/Objective/Spread.antt =====
-- The spreads of src/planner/objective.rs: the largest less the smallest of a set of rates.
use rbot_v.Prelude.{
  ℕ, ◌+◌, ◌≤◌, ◌≡◌, ◌⊎◌, inl, inr, refl, Option, none, some, if◌then◌else◌, List, [], ◌∷◌, arith,
  and_then, min, max, is_empty, All, Memᴰ, lookup, collect, map, collect_mem, collect-All, sym, ap,
  ◌∙◌,
}
use mathlib.Core.Path.{subst}
use rbot_v.Prelude.Words.{checked_sub}
use rbot_v.Domain.{ProjectedMarketState}

pub data StrategyObjective : Type 0 where
  spot_borrow_rate_spread utilization_spread : StrategyObjective

-- `maximum.zip(minimum).and_then(..).unwrap_or(U256::ZERO)`.
unfoldable pub spread_of : Option ℕ → Option ℕ → ℕ
spread_of (some minimum) (some maximum) = elim (checked_sub maximum minimum) [
  | none ↦ 0
  | some spread ↦ spread
]
spread_of _ _ = 0

unfoldable pub map_or : Option ℕ → ℕ → (ℕ → ℕ) → ℕ
map_or none rate _ = rate
map_or (some value) _ f = f value

unfoldable pub spread_loop : Option ℕ → Option ℕ → List ℕ → ℕ
spread_loop minimum maximum [] = spread_of minimum maximum
spread_loop minimum maximum (rate ∷ rates) =
    spread_loop (some (map_or minimum rate (λ value. min value rate)))
      (some (map_or maximum rate (λ value. max value rate))) rates

unfoldable pub rate_spread : List ℕ → ℕ
rate_spread rates = spread_loop none none rates

-- The spread of the values that are there for every market, if there is a market.
unfoldable pub collected_spread : Option (List ℕ) → Option ℕ
collected_spread none = none
collected_spread (some values) = if is_empty values then none else some (rate_spread values)

unfoldable pub complete_rate_spread : List ℕ → List (ℕ × ProjectedMarketState) → Option ℕ
complete_rate_spread markets states = collected_spread (
    collect (
      map (λ market. and_then (lookup market states) (λ state. some state.spot_borrow_rate))
        markets))

unfoldable pub strategy_value : ProjectedMarketState → StrategyObjective → ℕ
strategy_value state spot_borrow_rate_spread = state.spot_borrow_rate
strategy_value state utilization_spread = state.utilization

abbrev pub strategy_value_at : List (ℕ × ProjectedMarketState) → StrategyObjective → ℕ → Option ℕ
strategy_value_at states objective market =
    and_then (lookup market states) (λ state. some (strategy_value state objective))

unfoldable pub complete_strategy_spread :
    List ℕ → List (ℕ × ProjectedMarketState) → StrategyObjective → Option ℕ
complete_strategy_spread markets states objective =
    collected_spread (collect (map (strategy_value_at states objective) markets))

-- The ends of the rates, after some of them have been seen.
abbrev Extends : ℕ → ℕ → List ℕ → ℕ → Type 0
Extends lo hi rates spread =
    (least : ℕ) × (most : ℕ) × ((least ≡ lo) ⊎ Memᴰ least rates)
    × ((most ≡ hi) ⊎ Memᴰ most rates)
    × (least ≤ lo)
    × (hi ≤ most)
    × All (λ rate. (least ≤ rate) × (rate ≤ most)) rates
    × (least + spread ≡ most)

min_choice : (a b : ℕ) → (min a b ≡ a) ⊎ (min a b ≡ b)
min_choice a b = ground arith

max_choice : (a b : ℕ) → (max a b ≡ a) ⊎ (max a b ≡ b)
max_choice a b = ground arith

spread_loop-Extends :
    (lo hi : ℕ) (rates : List ℕ)
    → lo ≤ hi
    → Extends lo hi rates (spread_loop (some lo) (some hi) rates)
unfolding spread_loop spread_of map_or
spread_loop-Extends lo hi [] h =
    (lo, hi, inl refl, inl refl, omega arith, omega arith, tt, ground arith)
spread_loop-Extends lo hi (rate ∷ rates) h =
    let (least, most, l, m, b, t, all, e) =
      spread_loop-Extends (min lo rate) (max hi rate) rates (ground arith) in
    (
      least,
      most,
      from lo least (min_choice lo rate) l,
      from hi most (max_choice hi rate) m,
      ground arith,
      ground arith,
      ((ground arith, ground arith), all),
      e,
    )
  where
    from :
        {extreme : ℕ} (seen end : ℕ)
        → (extreme ≡ seen) ⊎ (extreme ≡ rate)
        → (end ≡ extreme) ⊎ Memᴰ end rates
        → (end ≡ seen) ⊎ Memᴰ end (rate ∷ rates)
    from seen end _ (inr q) = inr (Memᴰ.tail q)
    from seen end (inl d) (inl e) = inl (e ∙ d)
    from seen end (inr d) (inl e) = inr (Memᴰ.head (e ∙ d))

-- The spread of rates that are there: it is reached by two of them, and all are between these.
abbrev HasSpread : List ℕ → ℕ → Type 0
HasSpread rates spread =
    (least : ℕ) × (most : ℕ) × Memᴰ least rates
    × Memᴰ most rates
    × All (λ rate. (least ≤ rate) × (rate ≤ most)) rates
    × (least + spread ≡ most)

pub rate_spread-HasSpread :
    (rate : ℕ) (rates : List ℕ) → HasSpread (rate ∷ rates) (rate_spread (rate ∷ rates))
unfolding rate_spread spread_loop map_or
rate_spread-HasSpread rate rates =
    let (least, most, l, m, b, t, all, e) = spread_loop-Extends rate rate rates (omega arith) in
    (least, most, seen l, seen m, ((b, t), all), e)
  where
    seen : {end : ℕ} → (end ≡ rate) ⊎ Memᴰ end rates → Memᴰ end (rate ∷ rates)
    seen (inl e) = Memᴰ.head e
    seen (inr q) = Memᴰ.tail q

collected_spread-some :
    (values : Option (List ℕ)) (spread : ℕ)
    → collected_spread values ≡ some spread
    → (rates : List ℕ) × (values ≡ some rates) × HasSpread rates spread
unfolding collected_spread
collected_spread-some none spread h = cc
collected_spread-some (some []) spread h = cc
collected_spread-some (some (rate ∷ rates)) spread h =
    (rate ∷ rates, refl, subst (HasSpread (rate ∷ rates)) (cc) (rate_spread-HasSpread rate rates))

-- A complete spread is reported only when every market has a state, and is exact: it is the
-- difference between the values of two of the markets, and the values of all of them are between
-- these two.
pub complete_strategy_spread-exact :
    (markets : List ℕ) (states : List (ℕ × ProjectedMarketState)) (objective : StrategyObjective)
    (spread : ℕ)
    → complete_strategy_spread markets states objective ≡ some spread
    → (low : ℕ) × (high : ℕ) × (least : ℕ) × Memᴰ low markets
      × Memᴰ high markets
      × (strategy_value_at states objective low ≡ some least)
      × (strategy_value_at states objective high ≡ some (least + spread))
      × All
          (λ market.
            (value : ℕ) × (strategy_value_at states objective market ≡ some value)
            × ((least ≤ value) × (value ≤ least + spread)))
          markets
unfolding complete_strategy_spread
complete_strategy_spread-exact markets states objective spread h =
    let value_at = strategy_value_at states objective in
    let (rates, found, (least, most, l, m, all, e)) =
      collected_spread-some (collect (map value_at markets)) spread h in
    let (low, at_low, v_low) = collect_mem value_at markets rates least found l in
    let (high, at_high, v_high) = collect_mem value_at markets rates most found m in
    (
      low,
      high,
      least,
      at_low,
      at_high,
      v_low,
      v_high ∙ ap some (sym e),
      subst
          (λ top.
            All
              (λ market.
                (value : ℕ) × (value_at market ≡ some value) × ((least ≤ value) × (value ≤ top)))
              markets)
          (sym e)
          (collect-All value_at (λ rate. (least ≤ rate) × (rate ≤ most)) markets rates found all),
    )
