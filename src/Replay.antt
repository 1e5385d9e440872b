-- ===== src/Replay.antt =====
-- execution_truth/taker_replay.py: the deterministic estimate of a taker buy against one captured
-- book. Decimals are whole numbers of a fixed last place: 12 places for prices, rates, budgets and
-- sizes, 6 for shares, 5 for fees and 18 for cash. Times are microseconds of one epoch. The
-- normalized bundle, which bundle.py checks and builds, is an argument.
pub mod Rounding
pub mod Search
pub mod Amounts
pub mod Asks
pub mod Plan
pub mod Conclusion
pub mod Outcome
use quantconnect.Prelude.{
  ℕ, zero, ◌+◌, ◌-◌, ◌*◌, ◌%◌, ◌^◌, ltb, leb, ◌==◌, Bool, true, false, not, ◌&&◌, ◌||◌, Option,
  none, some, List, [], ◌∷◌, ◌++◌, String, str_eq, if◌then◌else◌, Result, ok, err, contract_error,
  raise_if, ◌>>=◌, ◌>>◌,
}
use quantconnect.Replay.Amounts.{Parsed, decimal}
use quantconnect.Replay.Asks.{
  Level, Fill, Progress, Terms, StopReason, insufficient_depth, take_levels,
}

pub data Reason : Type 0 where
  below_minimum_order_size gamma_observed_after gamma_stale clob_observed_after clob_stale : Reason
  book_observed_after book_stale exchange_after_observation exchange_book_stale : Reason
  outside_market_window market_not_orderable unknown_order_acceptance unknown_taker_delay : Reason
  taker_delay_requires_replay unknown_minimum_order_age order_age_unsupported : Reason
  negative_risk_unsupported fee_exponent_unsupported fee_enablement_unknown : Reason
  fee_enablement_disagrees fok_not_fully_fillable : Reason

pub data Status : Type 0 where
  rejected unfilled filled partial : Status

pub record Request : Type 0 where
  pub schema_version : String
  pub side : String
  pub time_in_force : String
  pub shares : Option Parsed
  pub limit_price : Option Parsed
  pub cash_budget : Option Parsed
  pub at : ℕ

-- The ages are integers of seconds; `none` is a value that is no integer, or a negative one.
pub record Policy : Type 0 where
  pub schema_version : String
  pub depth_assumption : String
  pub fee_model : String
  pub max_book_age : Option ℕ
  pub max_market_age : Option ℕ
  pub max_exchange_age : Option ℕ

-- The normalized market contract, with the observation times of its two sources. A flag may be
-- unknown.
pub record Market : Type 0 where
  pub minimum_tick_size : Option Parsed
  pub minimum_order_size : Option Parsed
  pub fee_rate : Option Parsed
  pub fee_exponent : String
  pub taker_order_delay_enabled : Option Bool
  pub minimum_order_age_seconds : Option ℕ
  pub active : Option Bool
  pub closed : Option Bool
  pub order_book_enabled : Option Bool
  pub accepting_orders : Option Bool
  pub fees_enabled : Option Bool
  pub event_start : ℕ
  pub event_end : ℕ
  pub gamma_observed : ℕ
  pub clob_observed : ℕ

-- The book of the requested token; `exchange` is `none` where the text is no number of
-- milliseconds in range.
pub record Book : Type 0 where
  pub asks : List Level
  pub observed : ℕ
  pub exchange : Option ℕ
  pub negative_risk : Bool

unfoldable pub age_limit : Option ℕ → Result ℕ
age_limit none = err contract_error
age_limit (some value) = do raise_if (ltb 86400 value) contract_error; ok value

-- `if bad: reasons.append(reason)`
abbrev pub when : Bool → Reason → List Reason
when true reason = reason ∷ []
when false reason = []

-- An observation after the time of the replay, or one that is older than the limit.
abbrev pub age_reasons : ℕ → ℕ → ℕ → Reason → Reason → List Reason
age_reasons at observed limit after stale =
    if ltb at observed then after ∷ [] else when (ltb (limit * 10 ^ 6) (at - observed)) stale

abbrev pub is_true : Option Bool → Bool
is_true (some true) = true
is_true _ = false

abbrev pub is_false : Option Bool → Bool
is_false (some false) = true
is_false _ = false

abbrev pub delay_reasons : Option Bool → List Reason
delay_reasons none = unknown_taker_delay ∷ []
delay_reasons (some true) = taker_delay_requires_replay ∷ []
delay_reasons (some false) = []

abbrev pub order_age_reasons : Option ℕ → List Reason
order_age_reasons none = unknown_minimum_order_age ∷ []
order_age_reasons (some seconds) = when (not (seconds == 0)) order_age_unsupported

abbrev pub fee_reasons : Option Bool → ℕ → List Reason
fee_reasons none rate = fee_enablement_unknown ∷ []
fee_reasons (some true) rate = []
fee_reasons (some false) rate = when (not (rate == 0)) fee_enablement_disagrees

-- The reasons to reject, in the order of the code. The times and limits are in their units.
unfoldable pub reject_reasons : Market → Book → ℕ → ℕ → ℕ → ℕ → ℕ → ℕ → ℕ → ℕ → List Reason
reject_reasons market book exchange at requested minimum rate book_age market_age exchange_age =
    when (ltb requested minimum) below_minimum_order_size
    ++ (age_reasons at market.gamma_observed market_age gamma_observed_after gamma_stale
        ++ (age_reasons at market.clob_observed market_age clob_observed_after clob_stale
            ++ (age_reasons at book.observed book_age book_observed_after book_stale
                ++ (when (ltb book.observed exchange) exchange_after_observation
                    ++ (when (ltb (exchange_age * 10 ^ 6) (at - exchange)) exchange_book_stale
                        ++ (when (not (leb market.event_start at && ltb at market.event_end))
                              outside_market_window
                            ++ (when
                                  (not (is_true market.active)
                                    || not (is_false market.closed)
                                    || not (is_true market.order_book_enabled)
                                    || not (is_true market.accepting_orders))
                                  market_not_orderable
                                ++ (elim market.accepting_orders [
                                  | none ↦ unknown_order_acceptance ∷ []
                                  | some accepting ↦ []
                                ]
                                    ++ (delay_reasons market.taker_order_delay_enabled
                                        ++ (order_age_reasons market.minimum_order_age_seconds
                                            ++ (when book.negative_risk negative_risk_unsupported
                                                ++ (when (not (str_eq market.fee_exponent "1"))
                                                      fee_exponent_unsupported
                                                    ++ fee_reasons market.fees_enabled
                                                        rate))))))))))))

pub record Estimate : Type 0 where
  pub status : Status
  pub reasons : List Reason
  pub stop : Option StopReason
  pub fills : List Fill
  pub requested : ℕ
  pub budget : ℕ

-- `if remaining and stop_reason is None`
abbrev pub final_stop : ℕ → Option StopReason → Option StopReason
final_stop zero stop = stop
final_stop _ none = some insufficient_depth
final_stop _ stop = stop

-- The sum over the fills of one of their numbers.
abbrev pub total_of : (Fill → ℕ) → List Fill → ℕ
total_of f [] = 0
total_of f (x ∷ xs) = f x + total_of f xs

-- The status, from the reasons that came before the fills, the filled shares with 6 places and the
-- requested shares with 12.
unfoldable pub status_of : List Reason → ℕ → ℕ → Status
status_of (reason ∷ more) shares requested = rejected
status_of [] shares requested =
    if shares == 0 then unfilled else if (shares * 10 ^ 6) == requested then filled else partial

abbrev pub found_book : Option Book → Result Book
found_book none = err contract_error
found_book (some book) = ok book

abbrev pub found_time : Option ℕ → Result ℕ
found_time none = err contract_error
found_time (some time) = ok time

-- The end of `_replay`: a fill-or-kill order that is not filled whole has no fills.
unfoldable pub conclude : Request → ℕ → ℕ → Progress → Estimate
unfolding status_of
conclude request requested budget p =
    let killed = str_eq request.time_in_force "FOK" && not (p.remaining == 0) in
    let fills = if killed then [] else p.fills in
    record {
      status = status_of [] (total_of (λ f. f.shares) fills) requested;
      reasons = if killed then fok_not_fully_fillable ∷ [] else [];
      stop = final_stop p.remaining p.stop;
      fills = fills;
      requested = requested;
      budget = budget;
    }

-- The orders that are rejected before the book is read.
abbrev pub refuse : List Reason → ℕ → ℕ → Estimate
refuse reasons requested budget = record {
  status = status_of reasons 0 requested;
  reasons = reasons;
  stop = none;
  fills = [];
  requested = requested;
  budget = budget;
}

-- `if not reasons:` and its block.
unfoldable pub execute : List Reason → Terms → Request → ℕ → ℕ → List Level → Result Estimate
unfolding conclude
execute (reason ∷ more) terms request requested budget asks =
    ok (refuse (reason ∷ more) requested budget)
execute [] terms request requested budget asks = do
  p ←
      take_levels terms
        (record {
          remaining = requested;
          remaining_cash = budget * 10 ^ 6;
          fills = [];
          stop = none;
        })
        asks
  ok (conclude request requested budget p)

-- `_replay`, with the normalized market and the requested token's book, if there is exactly one.
unfoldable pub replay : Request → Policy → Market → Option Book → Result Estimate
unfolding execute age_limit reject_reasons
replay request policy market book = do
  raise_if (not (str_eq request.schema_version "qcrl.taker_replay_request.v1")) contract_error
  raise_if (not (str_eq policy.schema_version "qcrl.taker_replay_policy.v1")) contract_error
  raise_if
      (not (str_eq request.side "BUY")
        || not (str_eq request.time_in_force "FAK" || str_eq request.time_in_force "FOK"))
      contract_error
  raise_if (not (str_eq policy.depth_assumption "frozen_snapshot")) contract_error
  raise_if (not (str_eq policy.fee_model "cash_equivalent_per_level_half_up_5dp")) contract_error
  book_age ← age_limit policy.max_book_age
  market_age ← age_limit policy.max_market_age
  exchange_age ← age_limit policy.max_exchange_age
  requested ← decimal request.shares false
  limit ← decimal request.limit_price false
  budget ← decimal request.cash_budget true
  raise_if (not (requested % 10 ^ 6 == 0)) contract_error
  found ← found_book book
  tick ← decimal market.minimum_tick_size false
  raise_if (not (leb tick limit && leb limit (10 ^ 12 - tick)) || not (limit % tick == 0))
      contract_error
  minimum ← decimal market.minimum_order_size false
  rate ← decimal market.fee_rate true
  raise_if (ltb (10 ^ 12) rate) contract_error
  exchange ← found_time found.exchange
  execute
      (reject_reasons market found exchange request.at requested minimum rate book_age market_age
        exchange_age)
      (record { tick = tick; limit = limit; rate = rate }) request requested budget found.asks
