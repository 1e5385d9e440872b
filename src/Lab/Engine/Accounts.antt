-- ===== src/Lab/Engine/Accounts.antt =====
-- main.py: every bar and every signal of the evaluation is accounted for, across the statistics
-- and the risk tracker.
use quantconnect.Prelude.{
  ℕ, ◌+◌, ◌≡◌, refl, Bool, true, false, inl, inr, Option, none, some, String, arith, Bool-cases, ok,
  Returns,
}
use quantconnect.Num.{Num}
use quantconnect.Lab.Market.{Direction, Bar}
use quantconnect.Lab.Stake.{StakeModel, get_wager}
use quantconnect.Lab.Risk.{
  RiskTracker, no_reason, needed_wager, max_step_exceeded, RuinReason, init_risk, can_place_wager,
  record_trade,
}
use quantconnect.Lab.Risk.Counts.{IsCounted, IsCounted-init, record_trade-IsCounted}
use quantconnect.Lab.Stats.{
  StatsTracker, MarketRegime, init_stats, record_no_direction, record_tie, record_signal,
  record_filter_not_ready, record_filter_rejected, record_filter_signal_value, record_executed,
  record_trade_result,
}
use quantconnect.Lab.Stats.Tally.{
  IsTallied, IsTallied-init, record_signal-IsTallied, record_executed-IsTallied,
  record_trade_result-IsTallied,
}
use quantconnect.Lab.Engine.{has_won, place, decide}

module _ {N : Num} where
  -- One signal was refused for want of bankroll, where the tracker was ruined that way.
  abbrev pub blocked : RuinReason N → ℕ
  blocked no_reason = 0
  blocked (needed_wager w b n) = 1
  blocked (max_step_exceeded n m) = 0

  -- The books, with `bar` bars and `signal` signals still open.
  pub record IsAccounted (bar signal : ℕ) (r : RiskTracker N) (s : StatsTracker N) : Type 0 where
    pub counted : IsCounted r
    pub tallied : IsTallied s
    pub bars : s.bars_seen ≡ s.skipped_ruined + s.skipped_no_direction + s.signals_generated + bar
    pub signals :
        s.signals_generated
        ≡ s.skipped_filter_not_ready
          + s.skipped_filter_rejected
          + s.skipped_tie
          + s.signals_executed
          + blocked r.ruin_reason
          + signal
    pub trades : s.signals_executed ≡ r.trades
    pub wins : s.executed_wins ≡ r.wins
    pub losses : s.executed_losses ≡ r.losses
    pub alive : r.ruined ≡ false → r.ruin_reason ≡ no_reason

  pub IsAccounted-init :
      (bankroll : N.F) (max_steps : ℕ)
      → IsAccounted 0 0 (init_risk N bankroll max_steps) (init_stats N)
  unfolding init_risk
  IsAccounted-init bankroll max_steps = record {
    counted = IsCounted-init bankroll max_steps;
    tallied = IsTallied-init;
    bars = refl;
    signals = refl;
    trades = refl;
    wins = refl;
    losses = refl;
    alive = λ e. refl;
  }

  -- What a recorded trade does to the fields that the statistics share.
  won_trade :
      (r : RiskTracker N) (wager : N.F) (time : Option ℕ) (martingale : Bool)
      → let r' = (record_trade N r true wager time martingale).0 in
        (r'.trades ≡ r.trades + 1)
        × (r'.wins ≡ r.wins + 1)
        × (r'.losses ≡ r.losses)
        × (r'.ruin_reason ≡ r.ruin_reason)
        × (r'.ruined ≡ r.ruined)
  unfolding record_trade
  won_trade r wager time martingale = (refl, refl, refl, refl, refl)

  lost_trade :
      (r : RiskTracker N) (wager : N.F) (time : Option ℕ) (martingale : Bool)
      → let r' = (record_trade N r false wager time martingale).0 in
        (r'.trades ≡ r.trades + 1)
        × (r'.wins ≡ r.wins)
        × (r'.losses ≡ r.losses + 1)
        × (blocked r.ruin_reason ≡ 0 → blocked r'.ruin_reason ≡ 0)
        × (r'.ruined ≡ false → (r'.ruin_reason ≡ r.ruin_reason) × (r.ruined ≡ false))
  unfolding record_trade
  lost_trade r wager time martingale = (refl, refl, refl, ground arith, ground arith)

  executed-IsTallied :
      (s : StatsTracker N) (d : Direction) (won : Bool) (wager : N.F) (level : ℕ) (regime : String)
      (market : MarketRegime)
      → IsTallied s
      → IsTallied (record_trade_result N (record_executed N s d) d won wager level regime market)
  executed-IsTallied s d won wager level regime market h =
      record_trade_result-IsTallied (record_executed N s d) d won wager level regime market
        (record_executed-IsTallied s d h)

  trade-IsAccounted :
      (r : RiskTracker N) (s : StatsTracker N) (d : Direction) (won : Bool) (wager : N.F)
      (level : ℕ) (regime : String) (market : MarketRegime) (time : Option ℕ) (martingale : Bool)
      → r.ruined ≡ false
      → IsAccounted 0 1 r s
      → IsAccounted 0 0
          (record_trade N r won wager time martingale).0
          (record_trade_result N (record_executed N s d) d won wager level regime market)
  unfolding record_trade_result record_executed
  trade-IsAccounted r s d true wager level regime market time martingale live h =
      let same = won_trade r wager time martingale in
      record {
        counted = record_trade-IsCounted r true wager time martingale h.counted;
        tallied = executed-IsTallied s d true wager level regime market h.tallied;
        bars = h.bars;
        signals = ground (arith, h.alive live);
        trades = omega arith;
        wins = omega arith;
        losses = omega arith;
        alive = ground (arith, h.alive live);
      }
  trade-IsAccounted r s d false wager level regime market time martingale live h =
      let same = lost_trade r wager time martingale in
      record {
        counted = record_trade-IsCounted r false wager time martingale h.counted;
        tallied = executed-IsTallied s d false wager level regime market h.tallied;
        bars = h.bars;
        signals = ground (arith, h.alive live);
        trades = omega arith;
        wins = omega arith;
        losses = omega arith;
        alive = ground (arith, h.alive live);
      }

  placed :
      (r : RiskTracker N) (wager : N.F) (time : Option ℕ)
      → N.lt r.bankroll wager ≡ false
      → can_place_wager N r wager time ≡ (true, r)
  unfolding can_place_wager
  placed r wager time covers = rw covers

  refused :
      (r : RiskTracker N) (wager : N.F) (time : Option ℕ)
      → N.lt r.bankroll wager ≡ true
      → can_place_wager N r wager time ≡ (false, (can_place_wager N r wager time).1)
  unfolding can_place_wager
  refused r wager time short = rw short

  refused-IsAccounted :
      (r : RiskTracker N) (s : StatsTracker N) (wager : N.F) (time : Option ℕ)
      → N.lt r.bankroll wager ≡ true
      → r.ruined ≡ false
      → IsAccounted 0 1 r s
      → IsAccounted 0 0 (can_place_wager N r wager time).1 s
  unfolding can_place_wager
  refused-IsAccounted r s wager time short live h = rw short (record {
    counted = ground (arith, h.counted);
    tallied = h.tallied;
    bars = h.bars;
    signals = ground (arith, h.alive live);
    trades = h.trades;
    wins = h.wins;
    losses = h.losses;
    alive = λ e. cc;
  })

  place-IsAccounted :
      (r : RiskTracker N) (s : StatsTracker N) (wager : N.F) (martingale : Bool) (bar : Bar N)
      (time : ℕ) (d : Direction) (regime : String) (market : MarketRegime)
      → r.ruined ≡ false
      → IsAccounted 0 1 r s
      → let (r', s') = place N r s wager martingale bar time d regime market in
        IsAccounted 0 0 r' s'
  unfolding place
  place-IsAccounted r s wager martingale bar time d regime market live h =
      elim (Bool-cases (N.lt r.bankroll wager)) [
        | inl short ↦
            rw (refused r wager (some time) short)
              (refused-IsAccounted r s wager (some time) short live h)
        | inr covers ↦ rw (placed r wager (some time) covers) (
            trade-IsAccounted r s d (has_won N d bar) wager r.loss_step regime market (some time)
              martingale live h)
      ]

  kept_value :
      {bar signal : ℕ} (r : RiskTracker N) (s : StatsTracker N) (telemetry : Option N.F)
      → IsAccounted bar signal r s
      → IsAccounted bar signal r (record_filter_signal_value N s telemetry)
  unfolding record_filter_signal_value
  kept_value r s none h = h
  kept_value r s (some value) h = elim (Bool-cases (N.eq value value)) [
    | inl number ↦ rw number (ground (arith, h))
    | inr nan ↦ rw nan h
  ]

  signalled :
      (r : RiskTracker N) (s : StatsTracker N) (d : Direction)
      → IsAccounted 1 0 r s
      → IsAccounted 0 1 r (record_signal N s d)
  unfolding record_signal
  signalled r s d h = record {
    counted = h.counted;
    tallied = record_signal-IsTallied s d h.tallied;
    bars = omega (arith, h.bars);
    signals = omega (arith, h.signals);
    trades = h.trades;
    wins = h.wins;
    losses = h.losses;
    alive = h.alive;
  }

  no_direction_closes :
      (r : RiskTracker N) (s : StatsTracker N)
      → IsAccounted 1 0 r s
      → IsAccounted 0 0 r (record_no_direction N s)
  unfolding record_no_direction
  no_direction_closes r s h = ground (arith, h)

  not_ready_closes :
      (r : RiskTracker N) (s : StatsTracker N)
      → IsAccounted 0 1 r s
      → IsAccounted 0 0 r (record_filter_not_ready N s)
  unfolding record_filter_not_ready
  not_ready_closes r s h = ground (arith, h)

  rejected_closes :
      (r : RiskTracker N) (s : StatsTracker N)
      → IsAccounted 0 1 r s
      → IsAccounted 0 0 r (record_filter_rejected N s)
  unfolding record_filter_rejected
  rejected_closes r s h = ground (arith, h)

  tie_closes :
      (r : RiskTracker N) (s : StatsTracker N)
      → IsAccounted 0 1 r s
      → IsAccounted 0 0 r (record_tie N s)
  unfolding record_tie
  tie_closes r s h = ground (arith, h)

  module _ (r : RiskTracker N) (s : StatsTracker N) (stake : StakeModel N) (martingale : Bool)
      (bar : Bar N) (time : ℕ) (telemetry : Option N.F) (regime : String) (market : MarketRegime)
      (live : r.ruined ≡ false) (h : IsAccounted 1 0 r s)
      (paid : (wager : N.F) × (get_wager N stake r.loss_step ≡ ok wager)) where
    -- The handler from the moment the bar is counted: if its wager can be
    -- computed, then whatever the models answer, the handler returns and the books close.
    pub decide-IsAccounted :
        (answer : Option Direction) (ready allowed : Bool)
        → Returns
            (λ (out : RiskTracker N × StatsTracker N). IsAccounted 0 0 out.0 out.1)
            (decide N r s stake martingale bar time answer ready allowed telemetry regime market)
    unfolding decide
    decide-IsAccounted none ready allowed = no_direction_closes r s h
    decide-IsAccounted (some d) false allowed =
        not_ready_closes r _ (kept_value r _ telemetry (signalled r s d h))
    decide-IsAccounted (some d) true false =
        rejected_closes r _ (kept_value r _ telemetry (signalled r s d h))
    decide-IsAccounted (some d) true true =
        let seen = kept_value r (record_signal N s d) telemetry (signalled r s d h) in
        elim (Bool-cases (N.eq bar.close bar.open_price)) [
          | inl tie ↦ rw tie (tie_closes r _ seen)
          | inr moved ↦
              rw (moved, paid.1)
                (place-IsAccounted r _ paid.0 martingale bar time d regime market live seen)
        ]
