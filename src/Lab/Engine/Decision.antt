-- ===== src/Lab/Engine/Decision.antt =====
-- main.py: what the handler decides on a bar, as a value: the answers of the models and what became
-- of the tracker and the statistics.
use quantconnect.Prelude.{
  ℕ, ◌≡◌, sym, ap, Bool, true, false, Option, none, some, String, Result, ok, >>=-eq-ok,
  ok-injective, refl, subst, inl, inr, Bool-cases, if◌then◌else◌,
}
use quantconnect.Num.{Num}
use quantconnect.Lab.Market.{Direction, Bar, before_day}
use quantconnect.Lab.Risk.{RiskTracker}
use quantconnect.Lab.Stats.{StatsTracker, MarketRegime, record_bar, record_ruined_skip}
use quantconnect.Lab.Entry.{
  EntryModel, fixed_bias, candle_streak, previous_candle, previous_candle_reverse, ema_entry,
  macd_entry, rsi_entry, streak_direction, reverse_direction, ema_direction, macd_direction,
  rsi_direction, rsi_update, get_direction,
}
use quantconnect.Lab.Stake.{get_wager}
use quantconnect.Lab.Filter.{is_ready, filter_update, filter_regime, filter_telemetry}
use quantconnect.Lab.Regime.{market_regime}
use quantconnect.Lab.Engine.{Engine, warm_up, ask_filter, place, decide, trade_bar, on_bar}

module _ {N : Num} where
  -- The answer of an entry model, with no bar at hand.
  pub answer : EntryModel N → Result (Option Direction)
  answer (fixed_bias bias) = ok (some bias)
  answer (candle_streak m) = ok (streak_direction m)
  answer (previous_candle previous) = ok previous
  answer (previous_candle_reverse previous) = ok (reverse_direction previous)
  answer (ema_entry m) = ema_direction N m
  answer (macd_entry m) = macd_direction N m
  answer (rsi_entry m) = rsi_direction N m

  pub answer-get_direction :
      (m : EntryModel N) (bar : Bar N) (out : Option Direction × EntryModel N)
      → get_direction N m bar ≡ ok out
      → answer m ≡ ok out.0
  unfolding answer get_direction
  answer-get_direction (fixed_bias bias) bar out h = cc
  answer-get_direction (candle_streak m) bar out h = cc
  answer-get_direction (previous_candle p) bar out h = cc
  answer-get_direction (previous_candle_reverse p) bar out h = cc
  answer-get_direction (ema_entry m) bar out h =
      let (d, e, k) = >>=-eq-ok (ema_direction N m) _ h in cc
  answer-get_direction (macd_entry m) bar out h =
      let (d, e, k) = >>=-eq-ok (macd_direction N m) _ h in cc
  answer-get_direction (rsi_entry m) bar out h =
      let (d, e, k) = >>=-eq-ok (rsi_direction N m) _ h in
      let (m', e', k') = >>=-eq-ok (rsi_update N m bar.close) _ k in cc

  -- What a handled bar decided, from the state before it alone.
  pub record Decision (e : Engine N) (bar : Bar N) (time : ℕ) (e' : Engine N) : Type 0 where
    pub direction : Option Direction
    pub allowed : Bool
    pub regime : String
    pub market : MarketRegime
    pub answered : answer e.entry_model ≡ ok direction
    pub asked : ask_filter N e.filter_model direction (is_ready N e.filter_model) ≡ ok allowed
    pub named : filter_regime N e.filter_model ≡ ok regime
    pub observed : market_regime N e.regime_model ≡ ok market
    pub decided : RiskTracker N × StatsTracker N
    pub decided_by :
        decide N e.risk e.stats e.stake_model e.is_martingale bar time direction
          (is_ready N e.filter_model)
          allowed
          (filter_telemetry N e.filter_model)
          regime
          market
        ≡ ok decided
    pub risk_after : e'.risk ≡ decided.0
    pub stats_after : e'.stats ≡ decided.1

  pub trade_bar-Decision :
      (e : Engine N) (bar : Bar N) (time : ℕ) (e' : Engine N)
      → trade_bar N e bar time ≡ ok e'
      → Decision e bar time e'
  unfolding trade_bar
  trade_bar-Decision e bar time e' h =
      let (answered, a, h1) = >>=-eq-ok (get_direction N e.entry_model bar) _ h in
      let (regime, b, h2) = >>=-eq-ok (filter_regime N e.filter_model) _ h1 in
      let (market, c, h3) = >>=-eq-ok (market_regime N e.regime_model) _ h2 in
      let (allowed, d, h4) =
        >>=-eq-ok (ask_filter N e.filter_model answered.0 (is_ready N e.filter_model)) _ h3 in
      let (model, f, h5) = >>=-eq-ok (filter_update N e.filter_model bar) _ h4 in
      let (decided, g, h6) =
        >>=-eq-ok
          (decide N e.risk e.stats e.stake_model e.is_martingale bar time answered.0
            (is_ready N e.filter_model) allowed (filter_telemetry N e.filter_model) regime market)
          _ h5 in
      record {
        direction = answered.0;
        allowed = allowed;
        regime = regime;
        market = market;
        answered = answer-get_direction e.entry_model bar answered a;
        asked = d;
        named = b;
        observed = c;
        decided = decided;
        decided_by = g;
        risk_after = sym (ap (λ (x : Engine N). x.risk) (ok-injective h6));
        stats_after = sym (ap (λ (x : Engine N). x.stats) (ok-injective h6));
      }

  warm_up_risk :
      (e : Engine N) (bar : Bar N) (e' : Engine N) → warm_up N e bar ≡ ok e' → e'.risk ≡ e.risk
  unfolding warm_up
  warm_up_risk e bar e' h =
      let (answered, a, h1) = >>=-eq-ok (get_direction N e.entry_model bar) _ h in
      let (model, f, h2) = >>=-eq-ok (filter_update N e.filter_model bar) _ h1 in
      sym (ap (λ (x : Engine N). x.risk) (ok-injective h2))

  module _ (P : RiskTracker N → Type 0) (e : Engine N) (bar : Bar N) (time : ℕ)
      (placed : e.risk.ruined ≡ false
        → (s : StatsTracker N) (d : Direction) (regime : String) (market : MarketRegime)
          (wager : N.F)
        → get_wager N e.stake_model e.risk.loss_step ≡ ok wager
        → P (place N e.risk s wager e.is_martingale bar time d regime market).0)
      (held : P e.risk) where
    kept : {a b : RiskTracker N × StatsTracker N} → a ≡ b → P a.0 → P b.0
    kept same h = subst (λ (o : RiskTracker N × StatsTracker N). P o.0) same h

    pub decide_keeps :
        e.risk.ruined ≡ false
        → (s : StatsTracker N) (direction : Option Direction) (ready allowed : Bool)
          (telemetry : Option N.F) (regime : String) (market : MarketRegime)
          (out : RiskTracker N × StatsTracker N)
        → decide N e.risk s e.stake_model e.is_martingale bar time direction ready allowed telemetry
            regime market
          ≡ ok out
        → P out.0
    unfolding decide
    decide_keeps live s none ready allowed telemetry regime market out h =
        kept (ok-injective h) held
    decide_keeps live s (some d) false allowed telemetry regime market out h =
        kept (ok-injective h) held
    decide_keeps live s (some d) true false telemetry regime market out h =
        kept (ok-injective h) held
    decide_keeps live s (some d) true true telemetry regime market out h =
        elim (Bool-cases (N.eq bar.close bar.open_price)) [
          | inl tie ↦ kept (ok-injective (rw tie at h)) held
          | inr moved ↦
              let (wager, w, rest) =
                >>=-eq-ok (get_wager N e.stake_model e.risk.loss_step) _ (rw moved at h) in
              kept (ok-injective rest) (placed live _ d regime market wager w)
        ]

    -- What a placed trade keeps of the tracker, the handler keeps.
    pub on_bar_keeps : (e' : Engine N) → on_bar N e bar time ≡ ok e' → P e'.risk
    unfolding on_bar
    on_bar_keeps e' h = by_day (before_day N bar e.start_year e.start_month e.start_day) h
      where
        seen : Engine N
        seen = record e { stats = record_bar N e.stats }

        skipped : Result (Engine N)
        skipped = ok (record seen { stats = record_ruined_skip N seen.stats })

        by_ruin :
            (ruined : Bool)
            → e.risk.ruined ≡ ruined
            → (if ruined then skipped else trade_bar N seen bar time) ≡ ok e'
            → P e'.risk
        by_ruin true r k = subst (λ (x : Engine N). P x.risk) (ok-injective k) held
        by_ruin false r k =
            let a = trade_bar-Decision seen bar time e' k in
            subst P (sym a.risk_after) (
              decide_keeps r seen.stats a.direction (is_ready N e.filter_model) a.allowed
                (filter_telemetry N e.filter_model) a.regime a.market a.decided a.decided_by)

        by_day :
            (early : Bool)
            → (if early
                then warm_up N e bar
                else (if e.risk.ruined then skipped else trade_bar N seen bar time))
              ≡ ok e'
            → P e'.risk
        by_day true k = subst P (sym (warm_up_risk e bar e' k)) held
        by_day false k = by_ruin e.risk.ruined refl k
