-- ===== src/Lab/Engine/Run.antt =====
-- main.py: a run of `OnPolymarketBar` over a list of bars returns, and its books close.
use quantconnect.Prelude.{
  ◌≤◌, sym, String, str_eq, Returns-eq, ℕ, ◌≡◌, Bool, true, false, Option, none, some, List, [],
  ◌∷◌, arith, Result, ok, ◌>>=◌, Returns, Returns-bind, Returns-if, subst, Ensures, Ensures-bind,
  Ensures-any,
}
use quantconnect.Num.{Num, IsOrdered, IsSigned}
use quantconnect.Lab.Market.{Direction, Bar, before_day}
use quantconnect.Lab.Risk.{RiskTracker, init_risk}
use quantconnect.Lab.Stats.{StatsTracker, MarketRegime, record_bar, record_ruined_skip}
use quantconnect.Lab.Entry.{get_direction, create_entry}
use quantconnect.Lab.Entry.Safety
use quantconnect.Lab.Entry.Safety.{get_direction-Returns, create_entry-IsValid}
use quantconnect.Lab.Filter.{
  FilterModel, is_ready, filter_telemetry, filter_update, filter_regime, create_filter,
}
use quantconnect.Lab.Filter.Safety as FilterSafety
use quantconnect.Lab.Regime.{market_regime, create_regime}
use quantconnect.Lab.Stake.{create_stake}
use quantconnect.Lab.Regime.Window.{market_regime-Returns}
use quantconnect.Lab.Engine.{
  Engine, Options, initialize, warm_up, ask_filter, decide, trade_bar, on_bar,
}
use quantconnect.Lab.Engine.Payable.{
  IsPayable, IsPayable-Pays, decide-IsPayable, create_stake-IsPayable,
}
use quantconnect.Lab.Engine.Accounts.{IsAccounted, IsAccounted-init, decide-IsAccounted}

module _ {N : Num} where
  -- The models are in valid states, the books are closed, and the wagers can be computed.
  pub record IsSound (e : Engine N) : Type 0 where
    pub entry : Safety.IsValid e.entry_model
    pub filter : FilterSafety.IsValid e.filter_model
    pub books : IsAccounted 0 0 e.risk e.stats
    pub wagers : IsPayable e.stake_model e.is_martingale e.risk

  -- The bar is counted before anything else happens to it.
  counted_bar :
      (r : RiskTracker N) (s : StatsTracker N)
      → IsAccounted 0 0 r s
      → IsAccounted 1 0 r (record_bar N s)
  unfolding record_bar
  counted_bar r s h = record {
    counted = h.counted;
    tallied = ground (arith, h.tallied);
    bars = omega (arith, h.bars);
    signals = h.signals;
    trades = h.trades;
    wins = h.wins;
    losses = h.losses;
    alive = h.alive;
  }

  ruined_closes :
      (r : RiskTracker N) (s : StatsTracker N)
      → IsAccounted 1 0 r s
      → IsAccounted 0 0 r (record_ruined_skip N s)
  unfolding record_ruined_skip
  ruined_closes r s h = ground (arith, h)

  ask_filter-Returns :
      (m : FilterModel N) (answer : Option Direction) (ready : Bool)
      → FilterSafety.IsValid m
      → Returns (λ b. Unit {0}) (ask_filter N m answer ready)
  unfolding ask_filter
  ask_filter-Returns m none ready h = tt
  ask_filter-Returns m (some d) true h = FilterSafety.allow_trade-Returns m d h
  ask_filter-Returns m (some d) false h = tt

module _ (N : Num) where
  -- The factories return valid models, and a new run has nothing to account for.
  initialize-IsSound :
      (o : Options N)
      → ((n : ℕ) → n ≤ o.max_steps → (factor : N.F) × (N.pow o.multiplier n ≡ some factor))
      → Ensures (IsSound {N = N}) (initialize N o)
  unfolding initialize
  initialize-IsSound o powers =
      Ensures-bind Safety.IsValid (IsSound {N = N}) (create_entry N o.entry) _
        (create_entry-IsValid N o.entry)
        λ entry v.
          Ensures-bind
            (λ stake.
              IsPayable stake (str_eq o.stake_mode "martingale")
                (init_risk N o.bankroll o.max_steps))
            (IsSound {N = N}) (create_stake N o.stake_mode o.base_wager o.multiplier) _
            (create_stake-IsPayable N o.stake_mode o.base_wager o.multiplier o.bankroll o.max_steps
              powers)
            λ stake x.
              Ensures-bind FilterSafety.IsValid (IsSound {N = N}) (create_filter N o.filter) _
                (FilterSafety.create_filter-IsValid N o.filter)
                λ model f.
                  Ensures-bind (λ x. Unit {0}) (IsSound {N = N})
                    (create_regime N o.regime_model o.regime_lookback o.regime_threshold) _
                    (Ensures-any _)
                    λ regime y. record {
                      entry = v;
                      filter = f;
                      books = IsAccounted-init o.bankroll o.max_steps;
                      wagers = x;
                    }

module _ (N : Num) where
  -- The handler over a list of bars, each with its time.
  abbrev pub run : Engine N → List (Bar N × ℕ) → Result (Engine N)
  run e [] = ok e
  run e ((bar, time) ∷ bars) = on_bar N e bar time >>= λ e'. run e' bars

module _ {N : Num} (ordered : IsOrdered N) (signed : IsSigned N) where
  -- The books after a decision are closed, and the next wager can be computed.
  abbrev Closed : Engine N → RiskTracker N × StatsTracker N → Type 0
  Closed e out = IsAccounted 0 0 out.0 out.1 × IsPayable e.stake_model e.is_martingale out.0

  decide-Closed :
      (e : Engine N) (bar : Bar N) (time : ℕ)
      → e.risk.ruined ≡ false
      → IsAccounted 1 0 e.risk e.stats
      → IsPayable e.stake_model e.is_martingale e.risk
      → (direction : Option Direction) (ready allowed : Bool) (telemetry : Option N.F)
        (regime : String) (market : MarketRegime)
      → Returns (Closed e) (
          decide N e.risk e.stats e.stake_model e.is_martingale bar time direction ready allowed
            telemetry regime market)
  decide-Closed e bar time live books paid direction ready allowed telemetry regime market =
      let (out, made, closed) =
        Returns-eq (λ (o : RiskTracker N × StatsTracker N). IsAccounted 0 0 o.0 o.1) _
          (decide-IsAccounted e.risk e.stats e.stake_model e.is_martingale bar time telemetry regime
            market live books (IsPayable-Pays e.stake_model e.is_martingale e.risk paid live)
            direction ready allowed) in
      subst (Returns (Closed e)) (sym made) (
        closed,
        decide-IsPayable e bar time paid live direction ready allowed telemetry regime market out
            made,
      )

  trade_bar-IsSound :
      (e : Engine N) (bar : Bar N) (time : ℕ)
      → Safety.IsValid e.entry_model
      → FilterSafety.IsValid e.filter_model
      → e.risk.ruined ≡ false
      → IsAccounted 1 0 e.risk e.stats
      → IsPayable e.stake_model e.is_martingale e.risk
      → Returns IsSound (trade_bar N e bar time)
  unfolding trade_bar
  trade_bar-IsSound e bar time v f live books paid =
      Returns-bind (λ out. Safety.IsValid out.1) IsSound (get_direction N e.entry_model bar) _
        (get_direction-Returns ordered signed e.entry_model bar v)
        λ answered v'.
          Returns-bind (λ u. Unit {0}) IsSound (filter_regime N e.filter_model) _
            (FilterSafety.filter_regime-Returns e.filter_model f)
            λ regime x.
              Returns-bind (λ u. Unit {0}) IsSound (market_regime N e.regime_model) _
                (market_regime-Returns N e.regime_model)
                λ market y.
                  Returns-bind (λ u. Unit {0}) IsSound
                    (ask_filter N e.filter_model answered.0 (is_ready N e.filter_model)) _
                    (ask_filter-Returns e.filter_model answered.0 _ f)
                    λ allowed z.
                      Returns-bind FilterSafety.IsValid IsSound (filter_update N e.filter_model bar)
                        _ (FilterSafety.filter_update-Returns ordered signed e.filter_model bar f)
                        λ model f'.
                          Returns-bind (Closed e) IsSound _ _
                            (decide-Closed e bar time live books paid answered.0
                              (is_ready N e.filter_model) allowed
                              (filter_telemetry N e.filter_model) regime market)
                            λ decided c. record {
                              entry = v';
                              filter = f';
                              books = c.0;
                              wagers = c.1;
                            }

  warm_up-IsSound : (e : Engine N) (bar : Bar N) → IsSound e → Returns IsSound (warm_up N e bar)
  unfolding warm_up
  warm_up-IsSound e bar s =
      Returns-bind (λ out. Safety.IsValid out.1) IsSound (get_direction N e.entry_model bar) _
        (get_direction-Returns ordered signed e.entry_model bar s.entry)
        λ answered v.
          Returns-bind FilterSafety.IsValid IsSound (filter_update N e.filter_model bar) _
            (FilterSafety.filter_update-Returns ordered signed e.filter_model bar s.filter)
            λ model f. record { entry = v; filter = f; books = s.books; wagers = s.wagers }

  -- Over numbers with the laws of `IsOrdered` and `IsSigned`, from valid models and closed books, and
  -- where the stake model can compute its wager at every loss step, or at those up to `max_steps` in a
  -- martingale that stands within them, the handler returns on every bar, whatever the prices are,
  -- and it leaves such a state: each bar of the evaluation is a ruined skip, a bar with no direction or a
  -- generated signal; each signal is skipped for one reason, executed, or the one that ruined the
  -- run; and the statistics and the risk tracker count the same trades, wins and losses.
  pub on_bar-IsSound :
      (e : Engine N) (bar : Bar N) (time : ℕ) → IsSound e → Returns IsSound (on_bar N e bar time)
  unfolding on_bar
  on_bar-IsSound e bar time s =
      let seen : Engine N = record e { stats = record_bar N e.stats } in
      let books = counted_bar e.risk e.stats s.books in
      Returns-if IsSound (before_day N bar e.start_year e.start_month e.start_day) (warm_up N e bar)
        _ (λ early. warm_up-IsSound e bar s)
        λ counts.
          Returns-if IsSound e.risk.ruined
            (ok (record seen { stats = record_ruined_skip N seen.stats }))
            (trade_bar N seen bar time)
            (λ ruined. record {
              entry = s.entry;
              filter = s.filter;
              books = ruined_closes e.risk _ books;
              wagers = s.wagers;
            })
            λ live. trade_bar-IsSound seen bar time s.entry s.filter live books s.wagers

  run_from_IsSound :
      (e : Engine N) (bars : List (Bar N × ℕ)) → IsSound e → Returns IsSound (run N e bars)
  run_from_IsSound e [] s = s
  run_from_IsSound e ((bar, time) ∷ bars) s =
      Returns-bind IsSound IsSound (on_bar N e bar time) _ (on_bar-IsSound e bar time s)
        λ e' s'. run_from_IsSound e' bars s'

  -- Over numbers with the laws of `IsOrdered` and `IsSigned`, once the set-up has returned, and if no
  -- power of the multiplier up to `max_steps` overflows, the handler returns on every bar of every list of bars, whatever
  -- the prices are, and at the end the books are closed: each bar of the evaluation was a ruined
  -- skip, a bar with no direction or a generated signal; each signal was skipped for one reason,
  -- executed, or the one that ruined the run; and the statistics and the risk tracker agree on
  -- trades, wins and losses.
  pub run-IsSound :
      (o : Options N) (e : Engine N) (bars : List (Bar N × ℕ))
      → initialize N o ≡ ok e
      → ((n : ℕ) → n ≤ o.max_steps → (factor : N.F) × (N.pow o.multiplier n ≡ some factor))
      → Returns IsSound (run N e bars)
  run-IsSound o e bars h powers =
      run_from_IsSound e bars (subst (Ensures IsSound) h (initialize-IsSound N o powers))
