-- ===== src/Tests/Replays.antt =====
-- execution_truth/taker_replay.py: a market with two asks.
use quantconnect.Prelude.{
  ℕ, ◌*◌, ◌^◌, ◌≡◌, refl, true, false, Option, none, some, [], ◌∷◌, Ensures, Returns,
}
use quantconnect.Replay.{
  partial, age_limit, reject_reasons, execute, conclude, status_of, Request, Policy, Market, Book,
  replay,
}
use quantconnect.Replay.Amounts.{Parsed, decimal}
use quantconnect.Replay.Asks.{
  take_levels, take_level, buy_level, fee_per_share, fill_level, after_fill, Progress, Terms,
  cost_of, maximum_of, quantity_of,
}
use quantconnect.Replay.Search.{search_steps, IsLargest, largest_affordable}
use quantconnect.Replay.Rounding.{half_up, to_precision, fee_of}
use quantconnect.Replay.Plan.{quantity_of-IsLargest}
use quantconnect.Replay.Outcome.{IsFaithful, replay-IsFaithful}

abbrev number : ℕ → ℕ → Option Parsed
number digits places =
    some (record { digits = digits; places = places; negative = false; finite = true })

abbrev request : Request
request = record {
  schema_version = "qcrl.taker_replay_request.v1";
  side = "BUY";
  time_in_force = "FAK";
  shares = number 30 0;
  limit_price = number 55 2;
  cash_budget = number 12 0;
  at = 1700000000000000;
}

abbrev policy : Policy
policy = record {
  schema_version = "qcrl.taker_replay_policy.v1";
  depth_assumption = "frozen_snapshot";
  fee_model = "cash_equivalent_per_level_half_up_5dp";
  max_book_age = some 5;
  max_market_age = some 60;
  max_exchange_age = some 5;
}

abbrev market : Market
market = record {
  minimum_tick_size = number 1 2;
  minimum_order_size = number 5 0;
  fee_rate = number 25 2;
  fee_exponent = "1";
  taker_order_delay_enabled = some false;
  minimum_order_age_seconds = some 0;
  active = some true;
  closed = some false;
  order_book_enabled = some true;
  accepting_orders = some true;
  fees_enabled = some true;
  event_start = 1699999000000000;
  event_end = 1700009000000000;
  gamma_observed = 1699999990000000;
  clob_observed = 1699999990000000;
}

abbrev book : Book
book = record {
  asks =
      record { price = number 50 2; size = number 10 0 }
      ∷ record { price = number 52 2; size = number 100 0 }
      ∷ [];
  observed = 1699999999000000;
  exchange = some 1699999998000000;
  negative_risk = false;
}

replay-IsFaithful_example :
    Ensures (IsFaithful request market) (replay request policy market (some book))
replay-IsFaithful_example = replay-IsFaithful request policy market (some book)

-- The replay returns: the budget ends in the second ask.
replay_partial : Returns (λ e. e.status ≡ partial) (replay request policy market (some book))
unfolding replay age_limit decimal execute take_levels take_level buy_level quantity_of
    largest_affordable search_steps cost_of fee_per_share fee_of half_up to_precision maximum_of
    fill_level after_fill conclude status_of reject_reasons
replay_partial = refl

abbrev terms : Terms
terms = record { tick = 10000000000; limit = 550000000000; rate = 250000000000 }

abbrev progress : Progress
progress = record {
  remaining = 20 * 10 ^ 12;
  remaining_cash = 6 * 10 ^ 18;
  fills = [];
  stop = none;
}

quantity_of-IsLargest_example :
    IsLargest
      (cost_of terms 520000000000)
      progress.remaining_cash
      0
      (maximum_of progress.remaining (100 * 10 ^ 12))
      (quantity_of terms progress 520000000000 (100 * 10 ^ 12))
quantity_of-IsLargest_example = quantity_of-IsLargest terms progress 520000000000 (100 * 10 ^ 12)
