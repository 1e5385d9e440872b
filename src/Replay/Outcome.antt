-- ===== src/Replay/Outcome.antt =====
-- execution_truth/taker_replay.py: what every estimate keeps of its request.
use quantconnect.Prelude.{
  ℕ, ◌-◌, ◌^◌, ◌%◌, ltb, leb, ◌==◌, ◌≡◌, ◌≢◌, refl, sym, ap, ◌∙◌, true, false, not, ◌&&◌, ◌||◌,
  Option, List, [], ◌∷◌, str_eq, Result, ok, err, contract_error, Ensures, Ensures-bind,
  Ensures-bind_eq, Ensures-any, Ensures-raise, ok-injective,
}
use quantconnect.Replay.Amounts.{decimal}
use quantconnect.Replay.Asks.{Level, Terms, take_levels}
use quantconnect.Replay.{
  Request, Policy, Market, Book, Reason, Estimate, conclude, found_book, found_time, age_limit,
  execute, replay,
}
use quantconnect.Replay.Conclusion.{decimal_positive, IsWithin, IsConclusive, execute-IsWithin}

-- The estimate of a request in a market: the numbers it was computed with are the request's and the
-- market's, and its fills are within them.
pub record IsFaithful (request : Request) (market : Market) (e : Estimate) : Type 0 where
  terms : Terms
  limit_price : decimal request.limit_price false ≡ ok terms.limit
  tick_size : decimal market.minimum_tick_size false ≡ ok terms.tick
  fee_rate : decimal market.fee_rate true ≡ ok terms.rate
  shares : decimal request.shares false ≡ ok e.requested
  budget : decimal request.cash_budget true ≡ ok e.budget
  fills : IsWithin terms e
  conclusive : IsConclusive request e

execute_request :
    (t : Terms) (request : Request) (requested budget : ℕ) (reasons : List Reason)
    (asks : List Level)
    → Ensures
        (λ e. (e.requested ≡ requested) × (e.budget ≡ budget))
        (execute reasons t request requested budget asks)
unfolding execute conclude
execute_request t request requested budget (reason ∷ more) asks = (refl, refl)
execute_request t request requested budget [] asks =
    Ensures-bind (λ p. Unit {0}) _ (take_levels t _ asks) _ (Ensures-any _) λ p u. (refl, refl)

Ensures-both {ℓ} :
    {A : Type ℓ} (P Q : A → Type 0) (m : Result A)
    → Ensures P m
    → Ensures Q m
    → Ensures (λ a. P a × Q a) m
Ensures-both P Q (ok a) h k = (h, k)
Ensures-both P Q (err e) h k = tt

Ensures-weaken {ℓ} :
    {A : Type ℓ} (P Q : A → Type 0) (m : Result A)
    → Ensures P m
    → ((a : A) → P a → Q a)
    → Ensures Q m
Ensures-weaken P Q (ok a) h k = k a h
Ensures-weaken P Q (err e) h k = tt

Ensures-eq {ℓ} : {A : Type ℓ} (P : A → Type 0) (m : Result A) (a : A) → m ≡ ok a → Ensures P m → P a
Ensures-eq P (ok b) a h k = rw (sym (ok-injective h)) k
Ensures-eq P (err e) a h k = cc

execute-IsFaithful :
    (request : Request) (market : Market) (t : Terms) (requested budget : ℕ) (reasons : List Reason)
    (asks : List Level)
    → decimal request.limit_price false ≡ ok t.limit
    → decimal market.minimum_tick_size false ≡ ok t.tick
    → decimal market.fee_rate true ≡ ok t.rate
    → decimal request.shares false ≡ ok requested
    → decimal request.cash_budget true ≡ ok budget
    → Ensures (IsFaithful request market) (execute reasons t request requested budget asks)
execute-IsFaithful request market t requested budget reasons asks limit tick rate shares cash =
    let positive : requested ≢ 0 =
      Ensures-eq (λ v. v ≢ 0) (decimal request.shares false) requested shares
        (decimal_positive request.shares) in
    Ensures-weaken _ (IsFaithful request market) (execute reasons t request requested budget asks)
      (Ensures-both _ _ (execute reasons t request requested budget asks)
        (execute_request t request requested budget reasons asks)
        (execute-IsWithin t request requested budget reasons asks positive))
      λ e h. record {
        terms = t;
        limit_price = limit;
        tick_size = tick;
        fee_rate = rate;
        shares = shares ∙ ap ok (sym h.0.0);
        budget = cash ∙ ap ok (sym h.0.1);
        fills = h.1.0;
        conclusive = h.1.1;
      }

-- Every estimate that the replay returns is computed with the request's shares, limit and budget and
-- the market's tick and fee rate. The shares of its fills are at most the requested ones, their cost
-- and fees at most the budget, and every fill respects the limit and the tick. A fill-or-kill order
-- is filled whole or not at all; a filled status means that the whole request is filled and that
-- nothing stopped it, a rejected or unfilled one that no share is; and where there are neither
-- reasons nor a stop, the status is filled.
pub replay-IsFaithful :
    (request : Request) (policy : Policy) (market : Market) (book : Option Book)
    → Ensures (IsFaithful request market) (replay request policy market book)
unfolding replay
replay-IsFaithful request policy market book =
    let Q : Estimate → Type 0 = IsFaithful request market in
    Ensures-raise Q (not (str_eq request.schema_version "qcrl.taker_replay_request.v1"))
      contract_error _
      λ a.
        Ensures-raise Q (not (str_eq policy.schema_version "qcrl.taker_replay_policy.v1"))
          contract_error _
          λ b.
            Ensures-raise Q
              (not (str_eq request.side "BUY")
                || not (str_eq request.time_in_force "FAK" || str_eq request.time_in_force "FOK"))
              contract_error _
              λ c.
                Ensures-raise Q (not (str_eq policy.depth_assumption "frozen_snapshot"))
                  contract_error _
                  λ d.
                    Ensures-raise Q
                      (not (str_eq policy.fee_model "cash_equivalent_per_level_half_up_5dp"))
                      contract_error _
                      λ e. Ensures-bind_eq Q (age_limit policy.max_book_age) _ λ book_age f.
                        Ensures-bind_eq Q (age_limit policy.max_market_age) _ λ market_age g.
                          Ensures-bind_eq Q (age_limit policy.max_exchange_age) _ λ exchange_age h.
                            Ensures-bind_eq Q (decimal request.shares false) _ λ requested shares.
                              Ensures-bind_eq Q (decimal request.limit_price false) _
                                λ limit limit_price.
                                  Ensures-bind_eq Q (decimal request.cash_budget true) _
                                    λ budget cash.
                                      Ensures-raise Q (not (requested % 10 ^ 6 == 0)) contract_error
                                        _
                                        λ i. Ensures-bind_eq Q (found_book book) _ λ found j.
                                          Ensures-bind_eq Q (decimal market.minimum_tick_size false)
                                            _
                                            λ tick tick_size.
                                              Ensures-raise Q
                                                (not (leb tick limit && leb limit (10 ^ 12 - tick))
                                                  || not (limit % tick == 0))
                                                contract_error _
                                                λ l.
                                                  Ensures-bind_eq Q
                                                    (decimal market.minimum_order_size false) _
                                                    λ minimum m.
                                                      Ensures-bind_eq Q
                                                        (decimal market.fee_rate true) _
                                                        λ rate fee_rate.
                                                          Ensures-raise Q (ltb (10 ^ 12) rate)
                                                            contract_error _
                                                            λ n.
                                                            Ensures-bind_eq Q
                                                            (found_time found.exchange) _
                                                            λ exchange o.
                                                            execute-IsFaithful request market
                                                            (record {
                                                            tick = tick;
                                                            limit = limit;
                                                            rate = rate;
                                                            })
                                                            requested budget _ found.asks
                                                            limit_price tick_size fee_rate shares
                                                            cash
