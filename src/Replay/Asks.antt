-- ===== src/Replay/Asks.antt =====
-- execution_truth/taker_replay.py: the loop of `_replay` over the asks of the book.
use quantconnect.Prelude.{
  ℕ, ◌+◌, ◌-◌, ◌*◌, ◌/◌, ◌%◌, ◌^◌, min, ltb, leb, ◌==◌, Bool, true, false, not, ◌&&◌, ◌||◌, Option,
  some, List, [], ◌∷◌, ◌++◌, if◌then◌else◌, Result, ok, contract_error, raise_if, ◌>>=◌, ◌>>◌,
}
use quantconnect.Replay.Amounts.{Parsed, decimal}
use quantconnect.Replay.Rounding.{fee_of}
use quantconnect.Replay.Search.{largest_affordable}

pub data StopReason : Type 0 where
  price_limit cash_budget insufficient_depth : StopReason

pub record Level : Type 0 where
  pub price : Option Parsed
  pub size : Option Parsed

-- The price has 12 places, the shares 6, the notional 18 and the fee 5.
pub record Fill : Type 0 where
  pub price : ℕ
  pub shares : ℕ
  pub notional : ℕ
  pub fee : ℕ

-- The remaining shares have 12 places and the remaining cash 18.
pub record Progress : Type 0 where
  pub remaining : ℕ
  pub remaining_cash : ℕ
  pub fills : List Fill
  pub stop : Option StopReason

-- What the loop reads of the request and of the market, with 12 places.
pub record Terms : Type 0 where
  pub tick : ℕ
  pub limit : ℕ
  pub rate : ℕ

-- `rate * price * (1 - price)`, with 36 places.
unfoldable pub fee_per_share : Terms → ℕ → ℕ
fee_per_share t price = t.rate * price * (10 ^ 12 - price)

-- `quantity * price + fee_for(quantity)`, with 18 places.
unfoldable pub cost_of : Terms → ℕ → ℕ → ℕ
cost_of t price quantity = quantity * price + fee_of (fee_per_share t price) quantity * 10 ^ 13

-- `min(remaining, depth).quantize(SHARE_STEP, ROUND_DOWN)`, in share steps.
unfoldable pub maximum_of : ℕ → ℕ → ℕ
maximum_of remaining depth = min remaining depth / 10 ^ 6

unfoldable pub quantity_of : Terms → Progress → ℕ → ℕ → ℕ
quantity_of t p price depth =
    largest_affordable (cost_of t price) p.remaining_cash (maximum_of p.remaining depth)

-- `if quantity:` and its block.
unfoldable pub fill_level : Terms → Progress → ℕ → ℕ → Progress
fill_level t p price quantity =
    if ltb 0 quantity
    then record p {
      remaining = p.remaining - quantity * 10 ^ 6;
      remaining_cash = p.remaining_cash - cost_of t price quantity;
      fills =
          p.fills
          ++ record {
            price = price;
            shares = quantity;
            notional = quantity * price;
            fee = fee_of (fee_per_share t price) quantity;
          }
            ∷ [];
    }
    else p

-- The end of the loop's body: the loop goes on exactly where the answer is `true`.
unfoldable pub after_fill : Progress → ℕ → ℕ → Progress × Bool
after_fill p quantity maximum =
    if p.remaining == 0
    then (p, false)
    else if ltb quantity maximum
    then (record p { stop = some cash_budget }, false)
    else (p, true)

-- One level at or below the limit.
unfoldable pub buy_level : Terms → Progress → ℕ → ℕ → Progress × Bool
unfolding after_fill
buy_level t p price depth =
    let quantity = quantity_of t p price depth in
    after_fill (fill_level t p price quantity) quantity (maximum_of p.remaining depth)

unfoldable pub take_level : Terms → Progress → Level → Result (Progress × Bool)
take_level t p level = do
  price ← decimal level.price false
  depth ← decimal level.size false
  raise_if (not (price % t.tick == 0) || not (leb t.tick price && leb price (10 ^ 12 - t.tick)))
      contract_error
  ok (
      if ltb t.limit price
      then (record p { stop = some price_limit }, false)
      else buy_level t p price depth)

-- `for level in book["asks"]`
unfoldable pub take_levels : Terms → Progress → List Level → Result Progress
take_levels t p [] = ok p
take_levels t p (level ∷ levels) = do
  out ← take_level t p level
  if out.1 then take_levels t out.0 levels else ok out.0
