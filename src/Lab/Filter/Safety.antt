-- ===== src/Lab/Filter/Safety.antt =====
-- filter_models.py: no filter raises, once its constructor has returned.
use quantconnect.Prelude.{
  ℕ, ◌<◌, ◌==◌, ◌≡◌, refl, sym, ap, ◌∙◌, true, false, inl, inr, Option, none, some, [], ◌∷◌, ◌++◌,
  arith, length, is_some, Bool-cases, Returns, Returns-bind, Returns-weaken, subst, Ensures,
  value_of, ok, if◌then◌else◌,
}
use quantconnect.Num.{Num, IsOrdered, IsSigned, divide, abs_of}
use quantconnect.Num.Signs.{divide-Returns, period_nonzero}
use quantconnect.Lab.Market.{Direction, Bar}
use quantconnect.Lab.Filter.{
  EmaTrend, AdxStrength, AtrVolatility, FilterModel, no_filter, ema_trend, adx_strength,
  atr_volatility, ema_take, directional_index, adx_collect, wilder, adx_average, adx_smooth,
  adx_branch, adx_move, adx_take, atr_average, atr_rate, atr_move, atr_take, filter_update,
  allow_trade, filter_regime, FilterOptions, create_filter, new_ema_trend, new_adx_strength,
  new_atr_volatility,
}

module _ {N : Num} where
  pub record IsEmaTrend (m : EmaTrend N) : Type 0 where
    pub fast_pos : 0 < m.fast_period
    pub ordered : m.fast_period < m.slow_period
    pub fast_set : 0 < m.samples → is_some m.fast_value ≡ true
    pub slow_set : 0 < m.samples → is_some m.slow_value ≡ true

  -- The previous bar's three prices are set together, and so are the three smoothed sums.
  pub record IsAdx (m : AdxStrength N) : Type 0 where
    pub period_pos : 1 < m.period
    pub high_set : is_some m.previous_high ≡ is_some m.previous_close
    pub low_set : is_some m.previous_low ≡ is_some m.previous_close
    pub positive_set : is_some m.smoothed_positive_dm ≡ is_some m.smoothed_true_range
    pub negative_set : is_some m.smoothed_negative_dm ≡ is_some m.smoothed_true_range

  pub record IsAtr (m : AtrVolatility N) : Type 0 where
    pub period_pos : 0 < m.period

  abbrev pub IsValid : FilterModel N → Type 0
  IsValid no_filter = Unit
  IsValid (ema_trend m) = IsEmaTrend m
  IsValid (adx_strength m) = IsAdx m
  IsValid (atr_volatility m) = IsAtr m

  ema_take-IsEmaTrend : (m : EmaTrend N) (p : N.F) → IsEmaTrend m → IsEmaTrend (ema_take N m p)
  unfolding ema_take
  ema_take-IsEmaTrend m p h = record {
    fast_pos = h.fast_pos;
    ordered = h.ordered;
    fast_set = λ k. refl;
    slow_set = λ k. refl;
  }

  -- A filter in a valid state answers on every direction, with no comparison of `None`.
  pub allow_trade-Returns :
      (m : FilterModel N) (d : Direction) → IsValid m → Returns (λ b. Unit {0}) (allow_trade N m d)
  unfolding allow_trade
  allow_trade-Returns no_filter d h = tt
  allow_trade-Returns (ema_trend m) d h = ground (arith, h.fast_set, h.slow_set)
  allow_trade-Returns (adx_strength m) d h = ground arith
  allow_trade-Returns (atr_volatility m) d h = ground arith

  pub filter_regime-Returns :
      (m : FilterModel N) → IsValid m → Returns (λ b. Unit {0}) (filter_regime N m)
  unfolding filter_regime
  filter_regime-Returns no_filter h = tt
  filter_regime-Returns (ema_trend m) h = ground (arith, h.fast_set, h.slow_set)
  filter_regime-Returns (adx_strength m) h = ground arith
  filter_regime-Returns (atr_volatility m) h = ground arith

module _ {N : Num} (ordered : IsOrdered N) (signed : IsSigned N) where
  open N use {F, lt, eq, add, sub, mul, of_ℕ}

  value-Returns : (o : Option F) → is_some o ≡ true → Returns (λ a. Unit {0}) (value_of o)
  value-Returns none h = cc
  value-Returns (some a) h = tt

  divide_by_period :
      (period : ℕ) (a : F) → 0 < period → Returns (λ q. Unit {0}) (divide N a (of_ℕ period))
  divide_by_period period a h = divide-Returns N a _ (period_nonzero ordered signed period h)

  share-Returns :
      (p n : F)
      → Returns
          (λ q. Unit {0})
          (if eq (add p n) (of_ℕ 0)
            then ok (of_ℕ 0)
            else divide N (mul (of_ℕ 100) (abs_of N (sub p n))) (add p n))
  share-Returns p n = elim (Bool-cases (eq (add p n) (of_ℕ 0))) [
    | inl nothing ↦ rw nothing tt
    | inr something ↦ rw something (divide-Returns N _ (add p n) something)
  ]

  index-Returns :
      (range positive negative : F)
      → Returns (λ q. Unit {0}) (directional_index N (some range) (some positive) (some negative))
  unfolding directional_index
  index-Returns range positive negative = elim (Bool-cases (eq range (of_ℕ 0))) [
    | inl still ↦ rw still tt
    | inr ranged ↦ rw ranged (
        Returns-bind (λ q. Unit {0}) (λ q. Unit {0}) (divide N (mul (of_ℕ 100) positive) range) _
          (divide-Returns N (mul (of_ℕ 100) positive) range ranged)
          λ p u.
            Returns-bind (λ q. Unit {0}) (λ q. Unit {0}) (divide N (mul (of_ℕ 100) negative) range)
              _ (divide-Returns N (mul (of_ℕ 100) negative) range ranged) λ n v. share-Returns p n)
  ]

  wilder-Returns :
      (period : ℕ) (smoothed : Option F) (x : F)
      → 0 < period
      → is_some smoothed ≡ true
      → Returns (λ q. Unit {0}) (wilder N period smoothed x)
  unfolding wilder
  wilder-Returns period none x p h = cc
  wilder-Returns period (some s) x p h =
      Returns-bind (λ q. Unit {0}) (λ q. Unit {0}) (divide N s (of_ℕ period)) _
        (divide_by_period period s p) λ share u. tt

  -- An average of the index leaves the period and the sums alone.
  abbrev SameState : AdxStrength N → AdxStrength N → Type 0
  SameState m m' =
      (m'.period ≡ m.period)
      × (m'.smoothed_true_range ≡ m.smoothed_true_range)
      × (m'.smoothed_positive_dm ≡ m.smoothed_positive_dm)
      × (m'.smoothed_negative_dm ≡ m.smoothed_negative_dm)

  adx_average-Returns :
      (m : AdxStrength N) (average : Option F) (dx : F)
      → 0 < m.period
      → Returns (SameState m) (adx_average N m average dx)
  unfolding adx_average
  adx_average-Returns m none dx p =
      elim (Bool-cases (length (m.dx_values ++ dx ∷ []) == m.period)) [
        | inl full ↦ rw full (
            Returns-bind (λ q. Unit {0}) (SameState m) (divide N _ (of_ℕ m.period)) _
              (divide_by_period m.period _ p) λ a u. (refl, refl, refl, refl))
        | inr short ↦ rw short (refl, refl, refl, refl)
      ]
  adx_average-Returns m (some value) dx p =
      Returns-bind (λ q. Unit {0}) (SameState m) (divide N _ (of_ℕ m.period)) _
        (divide_by_period m.period _ p) λ a u. (refl, refl, refl, refl)

  -- What a move leaves behind: the period, and the sums set together.
  abbrev Moved : AdxStrength N → AdxStrength N → Type 0
  Moved m m' =
      (m'.period ≡ m.period)
      × (is_some m'.smoothed_positive_dm ≡ is_some m'.smoothed_true_range)
      × (is_some m'.smoothed_negative_dm ≡ is_some m'.smoothed_true_range)

  adx_collect-Returns :
      (m : AdxStrength N) (range positive negative : F)
      → IsAdx m
      → Returns (Moved m) (adx_collect N m range positive negative)
  unfolding adx_collect
  adx_collect-Returns m range positive negative h =
      elim (Bool-cases (length (m.true_ranges ++ range ∷ []) == m.period)) [
        | inl full ↦ rw full (
            Returns-bind (λ q. Unit {0}) (Moved m) (directional_index N (some _) (some _) (some _))
              _ (index-Returns _ _ _) λ dx u. (refl, refl, refl))
        | inr short ↦ rw short (refl, h.positive_set, h.negative_set)
      ]

  adx_smooth-Returns :
      (m : AdxStrength N) (range positive negative : F)
      → 0 < m.period
      → is_some m.smoothed_true_range ≡ true
      → IsAdx m
      → Returns (Moved m) (adx_smooth N m range positive negative)
  unfolding adx_smooth
  adx_smooth-Returns m range positive negative p set h =
      Returns-bind (λ q. Unit {0}) (Moved m) _ _
        (wilder-Returns m.period m.smoothed_true_range range p set)
        λ r u.
          Returns-bind (λ q. Unit {0}) (Moved m) _ _
            (wilder-Returns m.period m.smoothed_positive_dm positive p (h.positive_set ∙ set))
            λ pos v.
              Returns-bind (λ q. Unit {0}) (Moved m) _ _
                (wilder-Returns m.period m.smoothed_negative_dm negative p (h.negative_set ∙ set))
                λ n w.
                  Returns-bind (λ q. Unit {0}) (Moved m) _ _ (index-Returns r pos n)
                    λ dx x.
                      averaged dx
                        (record m {
                          smoothed_true_range = some r;
                          smoothed_positive_dm = some pos;
                          smoothed_negative_dm = some n;
                        })
                        refl refl refl refl
    where
      averaged :
          (dx : F) (m' : AdxStrength N) {r pos n : F}
          → m'.period ≡ m.period
          → m'.smoothed_true_range ≡ some r
          → m'.smoothed_positive_dm ≡ some pos
          → m'.smoothed_negative_dm ≡ some n
          → Returns (Moved m) (adx_average N m' m.adx_value dx)
      averaged dx m' {r} {pos} {n} e er ep en =
          Returns-weaken (SameState m') (Moved m) (adx_average N m' m.adx_value dx)
            (adx_average-Returns m' m.adx_value dx (subst (λ k. 0 < k) (sym e) p))
            λ m'' same. (
              same.0 ∙ e,
              ap is_some (same.2 ∙ ep) ∙ sym (ap is_some (same.1 ∙ er)),
              ap is_some (same.3 ∙ en) ∙ sym (ap is_some (same.1 ∙ er)),
            )

  adx_branch-Returns :
      (m : AdxStrength N) (s : Option F) (range positive negative : F)
      → s ≡ m.smoothed_true_range
      → IsAdx m
      → Returns (Moved m) (adx_branch N m s range positive negative)
  unfolding adx_branch
  adx_branch-Returns m none range positive negative e h =
      adx_collect-Returns m range positive negative h
  adx_branch-Returns m (some s) range positive negative e h =
      adx_smooth-Returns m range positive negative (omega (arith, h.period_pos))
        (sym (ap is_some e)) h

  adx_move-Returns :
      (m : AdxStrength N) (previous : Option F) (bar : Bar N)
      → previous ≡ m.previous_close
      → IsAdx m
      → Returns (Moved m) (adx_move N m previous bar)
  unfolding adx_move
  adx_move-Returns m none bar e h = (refl, h.positive_set, h.negative_set)
  adx_move-Returns m (some previous) bar e h =
      Returns-bind (λ q. Unit {0}) (Moved m) (value_of m.previous_high) _
        (value-Returns m.previous_high (h.high_set ∙ sym (ap is_some e)))
        λ high u.
          Returns-bind (λ q. Unit {0}) (Moved m) (value_of m.previous_low) _
            (value-Returns m.previous_low (h.low_set ∙ sym (ap is_some e)))
            λ low v. adx_branch-Returns m m.smoothed_true_range _ _ _ refl h

  adx_take-Returns : (m : AdxStrength N) (bar : Bar N) → IsAdx m → Returns IsAdx (adx_take N m bar)
  unfolding adx_take
  adx_take-Returns m bar h =
      Returns-bind (Moved m) IsAdx (adx_move N m m.previous_close bar) _
        (adx_move-Returns m m.previous_close bar refl h)
        λ m' moved. record {
          period_pos = subst (λ k. 1 < k) (sym moved.0) h.period_pos;
          high_set = refl;
          low_set = refl;
          positive_set = moved.1;
          negative_set = moved.2;
        }

  atr_average-Returns :
      (m : AtrVolatility N) (average : Option F) (range : F)
      → IsAtr m
      → Returns IsAtr (atr_average N m average range)
  unfolding atr_average
  atr_average-Returns m none range h =
      elim (Bool-cases (length (m.true_ranges ++ range ∷ []) == m.period)) [
        | inl full ↦ rw full (
            Returns-bind (λ q. Unit {0}) IsAtr (divide N _ (of_ℕ m.period)) _
              (divide_by_period m.period _ h.period_pos)
              λ a u. record { period_pos = h.period_pos })
        | inr short ↦ rw short (record { period_pos = h.period_pos })
      ]
  atr_average-Returns m (some value) range h =
      Returns-bind (λ q. Unit {0}) IsAtr (divide N _ (of_ℕ m.period)) _
        (divide_by_period m.period _ h.period_pos) λ a u. record { period_pos = h.period_pos }

  positive_nonzero : (a : F) → lt (of_ℕ 0) a ≡ true → eq a (of_ℕ 0) ≡ false
  positive_nonzero a h = ground (arith, ordered.eq_le a (of_ℕ 0))

  atr_rate-Returns :
      (m : AtrVolatility N) (average : Option F) (close : F)
      → IsAtr m
      → Returns IsAtr (atr_rate N m average close)
  unfolding atr_rate
  atr_rate-Returns m none close h = h
  atr_rate-Returns m (some value) close h = elim (Bool-cases (lt (of_ℕ 0) close)) [
    | inl positive ↦ rw positive (
        Returns-bind (λ q. Unit {0}) IsAtr (divide N value close) _
          (divide-Returns N value close (positive_nonzero close positive))
          λ share u. record { period_pos = h.period_pos })
    | inr rest ↦ rw rest h
  ]

  atr_move-Returns :
      (m : AtrVolatility N) (previous : Option F) (bar : Bar N)
      → IsAtr m
      → Returns IsAtr (atr_move N m previous bar)
  unfolding atr_move
  atr_move-Returns m none bar h = h
  atr_move-Returns m (some previous) bar h =
      Returns-bind IsAtr IsAtr _ _ (atr_average-Returns m m.atr_value _ h)
        λ m' k. atr_rate-Returns m' m'.atr_value bar.close k

  -- Over numbers with the laws of `IsOrdered` and `IsSigned`, from a valid state no filter raises on any bar, and the state after the bar is valid: it uses
  -- no previous price or sum before it is set, and divides by no zero.
  pub filter_update-Returns :
      (m : FilterModel N) (bar : Bar N) → IsValid m → Returns IsValid (filter_update N m bar)
  unfolding filter_update
  filter_update-Returns no_filter bar h = tt
  filter_update-Returns (ema_trend m) bar h = ema_take-IsEmaTrend m bar.close h
  filter_update-Returns (adx_strength m) bar h =
      Returns-bind IsAdx IsValid (adx_take N m bar) _ (adx_take-Returns m bar h) λ m' k. k
  filter_update-Returns (atr_volatility m) bar h =
      Returns-bind IsAtr IsValid (atr_take N m bar) _
        (unfold atr_take in
          Returns-bind IsAtr IsAtr (atr_move N m m.previous_close bar) _
            (atr_move-Returns m m.previous_close bar h)
            λ m' k. record { period_pos = k.period_pos })
        λ m' k. k

module _ (N : Num) where
  new_ema_trend-IsEmaTrend :
      (fast slow : ℕ) → Ensures (IsEmaTrend {N = N}) (new_ema_trend N fast slow)
  unfolding new_ema_trend
  new_ema_trend-IsEmaTrend fast slow = ground arith

  new_adx_strength-IsAdx :
      (period : ℕ) (threshold : N.F) → Ensures (IsAdx {N = N}) (new_adx_strength N period threshold)
  unfolding new_adx_strength
  new_adx_strength-IsAdx period threshold = ground arith

  new_atr_volatility-IsAtr :
      (period : ℕ) (low high : N.F) → Ensures (IsAtr {N = N}) (new_atr_volatility N period low high)
  unfolding new_atr_volatility
  new_atr_volatility-IsAtr period low high = ground arith

  -- A filter that the factory returns is in a valid state.
  pub create_filter-IsValid : (o : FilterOptions N) → Ensures (IsValid {N = N}) (create_filter N o)
  unfolding create_filter
  create_filter-IsValid o = ground (
    arith,
    new_ema_trend-IsEmaTrend o.ema_fast o.ema_slow,
    new_adx_strength-IsAdx o.adx_period o.adx_threshold,
    new_atr_volatility-IsAtr o.atr_period o.atr_min_pct o.atr_max_pct,
  )
