-- ===== src/Lab/Engine/Lookahead.antt =====
-- main.py: no look-ahead. Apart from whether a bar closes where it opened, its prices decide the result
-- of a trade, and never whether it is made, which way it goes, or how much it stakes.
use quantconnect.Prelude.{
  ℕ, ◌≡◌, refl, sym, ap, subst, ◌∙◌, Bool, true, false, inl, inr, Option, none, some, String, arith,
  Bool-cases, Result, ok, err, ◌>>=◌, >>=-eq-ok, ok-injective, if◌then◌else◌,
}
use quantconnect.Num.{Num}
use quantconnect.Lab.Market.{Direction, Bar, before_day}
use quantconnect.Lab.Stake.{StakeModel, get_wager}
use quantconnect.Lab.Risk.{RiskTracker, can_place_wager}
use quantconnect.Lab.Stats.{
  StatsTracker, MarketRegime, record_bar, record_ruined_skip, record_executed, record_trade_result,
}
use quantconnect.Lab.Entry.{EntryModel, get_direction}
use quantconnect.Lab.Filter.{is_ready, filter_update, filter_telemetry}
use quantconnect.Lab.Engine.Decision.{answer-get_direction, trade_bar-Decision}
use quantconnect.Lab.Engine.{Engine, warm_up, ask_filter, place, decide, trade_bar, on_bar}

module _ {N : Num} where
  -- Every model gives one answer, whatever the current bar is: of two calls that return, on any two
  -- bars, the directions are the same.
  pub get_direction_no_lookahead :
      (m : EntryModel N) (bar other : Bar N) (out out' : Option Direction × EntryModel N)
      → get_direction N m bar ≡ ok out
      → get_direction N m other ≡ ok out'
      → out.0 ≡ out'.0
  get_direction_no_lookahead m bar other out out' h k =
      cc (answer-get_direction m bar out h, answer-get_direction m other out' k)

  -- What two runs have in common that made the same decision with the same stake.
  pub record SameTrade (s s' : StatsTracker N) : Type 0 where
    pub seen : s.bars_seen ≡ s'.bars_seen
    pub generated : s.signals_generated ≡ s'.signals_generated
    pub up_seen : s.up_signals ≡ s'.up_signals
    pub down_seen : s.down_signals ≡ s'.down_signals
    pub executed : s.signals_executed ≡ s'.signals_executed
    pub ups : s.up_executed ≡ s'.up_executed
    pub downs : s.down_executed ≡ s'.down_executed
    pub staked : s.total_wagered ≡ s'.total_wagered
    pub largest : s.max_wager_seen ≡ s'.max_wager_seen

  SameTrade-refl : (s : StatsTracker N) → SameTrade s s
  SameTrade-refl s = record {
    seen = refl;
    generated = refl;
    up_seen = refl;
    down_seen = refl;
    executed = refl;
    ups = refl;
    downs = refl;
    staked = refl;
    largest = refl;
  }

  result_same :
      (s : StatsTracker N) (d : Direction) (won won' : Bool) (wager : N.F) (level : ℕ)
      (regime : String) (market : MarketRegime)
      → SameTrade
          (record_trade_result N s d won wager level regime market)
          (record_trade_result N s d won' wager level regime market)
  unfolding record_trade_result
  result_same s d won won' wager level regime market = record {
    seen = refl;
    generated = refl;
    up_seen = refl;
    down_seen = refl;
    executed = refl;
    ups = refl;
    downs = refl;
    staked = refl;
    largest = refl;
  }

  module _ (r : RiskTracker N) (stake : StakeModel N) (martingale : Bool) (bar other : Bar N)
      (time : ℕ) (regime : String) (market : MarketRegime) where
    place_same :
        (s : StatsTracker N) (wager : N.F) (d : Direction)
        → SameTrade
            (place N r s wager martingale bar time d regime market).1
            (place N r s wager martingale other time d regime market).1
    unfolding place can_place_wager
    place_same s wager d = elim (Bool-cases (N.lt r.bankroll wager)) [
      | inl short ↦ rw short (SameTrade-refl s)
      | inr covers ↦
          rw covers (result_same (record_executed N s d) d _ _ wager r.loss_step regime market)
    ]

    both_same :
        (a b out out' : RiskTracker N × StatsTracker N)
        → SameTrade a.1 b.1
        → ok a ≡ ok out
        → ok b ≡ ok out'
        → SameTrade out.1 out'.1
    both_same a b out out' same h k =
        subst (λ (o : RiskTracker N × StatsTracker N). SameTrade o.1 out'.1) (ok-injective h)
          (subst (λ (o : RiskTracker N × StatsTracker N). SameTrade a.1 o.1) (ok-injective k) same)

    wager_same :
        (s : StatsTracker N) (d : Direction) (wager : Result N.F)
        (out out' : RiskTracker N × StatsTracker N)
        → (wager >>= λ w. ok (place N r s w martingale bar time d regime market)) ≡ ok out
        → (wager >>= λ w. ok (place N r s w martingale other time d regime market)) ≡ ok out'
        → SameTrade out.1 out'.1
    wager_same s d (err x) out out' h k = absurd (let no = h in cc)
    wager_same s d (ok w) out out' h k = both_same _ _ out out' (place_same s w d) h k

    decide_same :
        (s : StatsTracker N) (direction : Option Direction) (ready allowed : Bool)
        (telemetry : Option N.F) (out out' : RiskTracker N × StatsTracker N)
        → N.eq bar.close bar.open_price ≡ N.eq other.close other.open_price
        → decide N r s stake martingale bar time direction ready allowed telemetry regime market
          ≡ ok out
        → decide N r s stake martingale other time direction ready allowed telemetry regime market
          ≡ ok out'
        → SameTrade out.1 out'.1
    unfolding decide
    decide_same s none ready allowed telemetry out out' h p q =
        both_same _ _ out out' (SameTrade-refl _) p q
    decide_same s (some d) false allowed telemetry out out' h p q =
        both_same _ _ out out' (SameTrade-refl _) p q
    decide_same s (some d) true false telemetry out out' h p q =
        both_same _ _ out out' (SameTrade-refl _) p q
    decide_same s (some d) true true telemetry out out' h p q =
        elim (Bool-cases (N.eq other.close other.open_price)) [
          | inl tie ↦ both_same _ _ out out' (SameTrade-refl _) (rw (h ∙ tie) at p) (rw tie at q)
          | inr moved ↦
              wager_same _ d (get_wager N stake r.loss_step) out out' (rw (h ∙ moved) at p)
                (rw moved at q)
        ]

  trade_bar_same :
      (e : Engine N) (bar other : Bar N) (time : ℕ) (e1 e2 : Engine N)
      → N.eq bar.close bar.open_price ≡ N.eq other.close other.open_price
      → trade_bar N e bar time ≡ ok e1
      → trade_bar N e other time ≡ ok e2
      → SameTrade e1.stats e2.stats
  trade_bar_same e bar other time e1 e2 tie h k =
      let a = trade_bar-Decision e bar time e1 h in
      let b = trade_bar-Decision e other time e2 k in
      let d : a.direction ≡ b.direction = ok-injective (sym a.answered ∙ b.answered) in
      let asked : ask_filter N e.filter_model a.direction (is_ready N e.filter_model)
          ≡ ok b.allowed =
        ap (λ x. ask_filter N e.filter_model x (is_ready N e.filter_model)) d ∙ b.asked in
      let al : a.allowed ≡ b.allowed = ok-injective (sym a.asked ∙ asked) in
      let rg : a.regime ≡ b.regime = ok-injective (sym a.named ∙ b.named) in
      let mk : a.market ≡ b.market = ok-injective (sym a.observed ∙ b.observed) in
      let decided : decide N e.risk e.stats e.stake_model e.is_martingale other time a.direction
            (is_ready N e.filter_model) a.allowed (filter_telemetry N e.filter_model) a.regime
            a.market
          ≡ ok b.decided =
        cc (b.decided_by, d, al, rg, mk) in
      let same : SameTrade a.decided.1 b.decided.1 =
        decide_same e.risk e.stake_model e.is_martingale bar other time a.regime a.market e.stats
          a.direction (is_ready N e.filter_model) a.allowed (filter_telemetry N e.filter_model)
          a.decided b.decided tie a.decided_by decided in
      subst (λ s. SameTrade e1.stats s) (sym b.stats_after)
        (subst (λ s. SameTrade s b.decided.1) (sym a.stats_after) same)

  same_day :
      (bar other : Bar N) (e : Engine N)
      → (bar.year ≡ other.year) × (bar.month ≡ other.month) × (bar.day ≡ other.day)
      → before_day N bar e.start_year e.start_month e.start_day
        ≡ before_day N other e.start_year e.start_month e.start_day
  same_day bar other e day = ground arith

  warm_up_stats :
      (e : Engine N) (bar : Bar N) (e' : Engine N) → warm_up N e bar ≡ ok e' → e'.stats ≡ e.stats
  unfolding warm_up
  warm_up_stats e bar e' h =
      let (answered, a, h1) = >>=-eq-ok (get_direction N e.entry_model bar) _ h in
      let (model, f, h2) = >>=-eq-ok (filter_update N e.filter_model bar) _ h1 in
      sym (ap (λ (x : Engine N). x.stats) (ok-injective h2))

  warm_up_same :
      (e : Engine N) (bar other : Bar N) (e1 e2 : Engine N)
      → warm_up N e bar ≡ ok e1
      → warm_up N e other ≡ ok e2
      → SameTrade e1.stats e2.stats
  warm_up_same e bar other e1 e2 h k =
      subst (λ s. SameTrade e1.stats s)
        (warm_up_stats e bar e1 h ∙ sym (warm_up_stats e other e2 k)) (SameTrade-refl e1.stats)

  -- The handler on a bar of the evaluation.
  abbrev counted : Engine N → Bar N → ℕ → Result (Engine N)
  counted e bar time =
      let seen = record e { stats = record_bar N e.stats } in
      if e.risk.ruined
      then ok (record seen { stats = record_ruined_skip N seen.stats })
      else trade_bar N seen bar time

  counted_same :
      (e : Engine N) (bar other : Bar N) (time : ℕ) (e1 e2 : Engine N)
      → N.eq bar.close bar.open_price ≡ N.eq other.close other.open_price
      → counted e bar time ≡ ok e1
      → counted e other time ≡ ok e2
      → SameTrade e1.stats e2.stats
  counted_same e bar other time e1 e2 tie h k = by_ruin e.risk.ruined h k
    where
      seen : Engine N
      seen = record e { stats = record_bar N e.stats }

      skipped : Result (Engine N)
      skipped = ok (record seen { stats = record_ruined_skip N seen.stats })

      by_ruin :
          (ruined : Bool)
          → (if ruined then skipped else trade_bar N seen bar time) ≡ ok e1
          → (if ruined then skipped else trade_bar N seen other time) ≡ ok e2
          → SameTrade e1.stats e2.stats
      by_ruin true h k =
          subst (λ (x : Engine N). SameTrade e1.stats x.stats) (ok-injective (sym h ∙ k))
            (SameTrade-refl e1.stats)
      by_ruin false h k = trade_bar_same seen bar other time e1 e2 tie h k

  -- No look-ahead: of two bars of one day that both close where they opened, or both do not, the
  -- handler makes the same decision from one state, where it returns on each: the counts of signals
  -- and of trades, in each direction, the sum of the stakes and the largest one are the same,
  -- whatever the prices are.
  pub on_bar_no_lookahead :
      (e : Engine N) (bar other : Bar N) (time : ℕ) (e1 e2 : Engine N)
      → (bar.year ≡ other.year) × (bar.month ≡ other.month) × (bar.day ≡ other.day)
      → N.eq bar.close bar.open_price ≡ N.eq other.close other.open_price
      → on_bar N e bar time ≡ ok e1
      → on_bar N e other time ≡ ok e2
      → SameTrade e1.stats e2.stats
  unfolding on_bar
  on_bar_no_lookahead e bar other time e1 e2 day tie h k =
      elim (Bool-cases (before_day N bar e.start_year e.start_month e.start_day)) [
        | inl early ↦
            warm_up_same e bar other e1 e2 (rw early at h)
              (rw (sym (same_day bar other e day) ∙ early) at k)
        | inr counts ↦
            counted_same e bar other time e1 e2 tie (rw counts at h)
              (rw (sym (same_day bar other e day) ∙ counts) at k)
      ]
