-- ===== src/Lab/Entry/Safety.antt =====
-- entry_models.py: no entry model raises on any bar, once its constructor has returned.
use quantconnect.Prelude.{
  ℕ, ◌≤◌, ◌<◌, ◌==◌, ◌≡◌, refl, true, inl, inr, Option, none, some, [], ◌∷◌, ◌++◌, arith, length,
  length-take_last, ltb, sym, subst, ap, ◌∙◌, is_some, Bool-cases, Returns, Returns-bind, Ensures,
  String, value_of,
}
use quantconnect.Num.{Num, IsOrdered, IsSigned, divide}
use quantconnect.Num.Signs.{
  NonNeg, AreNonNeg, AreNonNeg-append_one, divide_nonneg, divide-Returns, max_nonneg, sum_nonneg,
  period_nonzero,
}
use quantconnect.Lab.Market.{Direction, Bar, candle}
use quantconnect.Lab.Entry.{
  EmaEntry, MacdEntry, RsiEntry, CandleStreak, EntryModel, fixed_bias, candle_streak,
  previous_candle, previous_candle_reverse, ema_entry, macd_entry, rsi_entry, ema_direction,
  ema_update, macd_direction, macd_update, rsi_value, rsi_direction, smooth, rsi_signal,
  rsi_average, rsi_change, rsi_update, streak_update, get_direction, EntryOptions, create_entry,
  new_ema_entry, new_macd_entry, new_rsi_entry, new_candle_streak, new_fixed_bias,
}

abbrev pub IsAverage : (N : Num) → Option N.F → Type 0
IsAverage N none = Unit
IsAverage N (some a) = NonNeg N a

length-streak_update :
    (m : CandleStreak) (d : Option Direction)
    → length m.recent_directions ≤ m.streak_length
    → length (streak_update m d).recent_directions ≤ m.streak_length
unfolding streak_update
length-streak_update m none h = ground arith
length-streak_update m (some d) h =
    let recent = m.recent_directions ++ d ∷ [] in
    elim (Bool-cases (ltb m.streak_length (length recent))) [
      | inl longer ↦ rw longer (omega (arith, length-take_last m.streak_length recent))
      | inr fits ↦ rw fits (ground arith)
    ]

module _ {N : Num} where
  -- The averages are there from the first bar on.
  pub record IsEma (m : EmaEntry N) : Type 0 where
    pub fast_pos : 0 < m.fast_period
    pub ordered : m.fast_period < m.slow_period
    pub fast_set : 0 < m.samples → is_some m.fast_value ≡ true
    pub slow_set : 0 < m.samples → is_some m.slow_value ≡ true

  pub record IsMacd (m : MacdEntry N) : Type 0 where
    pub fast_pos : 0 < m.fast_period
    pub ordered : m.fast_period < m.slow_period
    pub signal_pos : 0 < m.signal_period
    pub fast_set : 0 < m.samples → is_some m.fast_value ≡ true
    pub slow_set : 0 < m.samples → is_some m.slow_value ≡ true
    pub signal_set : 0 < m.samples → is_some m.signal_value ≡ true

  -- The two averages are set together, and neither they nor the changes are negative.
  pub record IsRsi (m : RsiEntry N) : Type 0 where
    pub period_pos : 0 < m.period
    pub together : is_some m.average_gain ≡ is_some m.average_loss
    pub gain : IsAverage N m.average_gain
    pub loss : IsAverage N m.average_loss
    pub gains : AreNonNeg N m.gains
    pub losses : AreNonNeg N m.losses

  abbrev pub IsValid : EntryModel N → Type 0
  IsValid (fixed_bias d) = Unit
  IsValid (candle_streak m) = (0 < m.streak_length) × (length m.recent_directions ≤ m.streak_length)
  IsValid (previous_candle p) = Unit
  IsValid (previous_candle_reverse p) = Unit
  IsValid (ema_entry m) = IsEma m
  IsValid (macd_entry m) = IsMacd m
  IsValid (rsi_entry m) = IsRsi m

  ema_direction-Returns : (m : EmaEntry N) → IsEma m → Returns (λ d. Unit {0}) (ema_direction N m)
  unfolding ema_direction
  ema_direction-Returns m h = ground (arith, h.fast_set, h.slow_set)

  macd_direction-Returns :
      (m : MacdEntry N) → IsMacd m → Returns (λ d. Unit {0}) (macd_direction N m)
  unfolding macd_direction
  macd_direction-Returns m h = ground (arith, h.fast_set, h.slow_set, h.signal_set)

  ema_update-IsEma : (m : EmaEntry N) (close : N.F) → IsEma m → IsEma (ema_update N m close)
  unfolding ema_update
  ema_update-IsEma m close h = record {
    fast_pos = h.fast_pos;
    ordered = h.ordered;
    fast_set = λ k. refl;
    slow_set = λ k. refl;
  }

  macd_update-IsMacd : (m : MacdEntry N) (close : N.F) → IsMacd m → IsMacd (macd_update N m close)
  unfolding macd_update
  macd_update-IsMacd m close h = record {
    fast_pos = h.fast_pos;
    ordered = h.ordered;
    signal_pos = h.signal_pos;
    fast_set = λ k. refl;
    slow_set = λ k. refl;
    signal_set = λ k. refl;
  }

module _ {N : Num} (ordered : IsOrdered N) (signed : IsSigned N) where
  open N use {F, lt, eq, add, sub, mul, of_ℕ}

  rsi_value-Returns :
      (gain loss : F)
      → NonNeg N gain
      → NonNeg N loss
      → Returns (λ r. Unit {0}) (rsi_value N gain loss)
  unfolding rsi_value
  rsi_value-Returns gain loss g l = elim (Bool-cases (eq loss (of_ℕ 0))) [
    | inl zero_loss ↦ rw zero_loss tt
    | inr loses ↦ rw loses (
        Returns-bind (NonNeg N) _ (divide N gain loss) _
          (divide_nonneg ordered signed gain loss g l loses)
          (λ strength h.
            Returns-bind (λ q. Unit {0}) _ _ _
              (divide-Returns N (of_ℕ 100) (add (of_ℕ 1) strength)
                (signed.one_plus_nonzero strength h))
              (λ q u. tt)))
  ]

  average-Returns :
      (o : Option F) → is_some o ≡ true → IsAverage N o → Returns (NonNeg N) (value_of o)
  average-Returns none h k = cc
  average-Returns (some a) h k = k

  rsi_signal-Returns :
      (m : RsiEntry N) (g : Option F)
      → is_some g ≡ is_some m.average_loss
      → IsAverage N g
      → IsAverage N m.average_loss
      → Returns (λ d. Unit {0}) (rsi_signal N m g)
  unfolding rsi_signal
  rsi_signal-Returns m none t g l = tt
  rsi_signal-Returns m (some gain) t g l =
      Returns-bind (NonNeg N) _ (value_of m.average_loss) _ (average-Returns _ (sym t) l) (λ loss k.
        Returns-bind (λ r. Unit {0}) _ (rsi_value N gain loss) _ (rsi_value-Returns gain loss g k)
          (λ r u. tt))

  smooth-Returns :
      (period : ℕ) (average x : F)
      → 0 < period
      → NonNeg N average
      → NonNeg N x
      → Returns (NonNeg N) (smooth N period average x)
  unfolding smooth
  smooth-Returns period average x p a k =
      divide_nonneg ordered signed _ _
        (signed.add_nonneg _ x (signed.mul_nonneg average _ a (signed.of_ℕ_nonneg _)) k)
        (signed.of_ℕ_nonneg period) (period_nonzero ordered signed period p)

  divide_period :
      (period : ℕ) (a : F) → 0 < period → NonNeg N a → Returns (NonNeg N) (divide N a (of_ℕ period))
  divide_period period a p h =
      divide_nonneg ordered signed a _ h (signed.of_ℕ_nonneg period)
        (period_nonzero ordered signed period p)

  rsi_average-Returns :
      (m : RsiEntry N) (g : Option F) (gain loss : F)
      → g ≡ m.average_gain
      → NonNeg N gain
      → NonNeg N loss
      → IsRsi m
      → Returns IsRsi (rsi_average N m g gain loss)
  unfolding rsi_average
  rsi_average-Returns m none gain loss e pg pl h =
      let gains = AreNonNeg-append_one N m.gains gain h.gains pg in
      let losses = AreNonNeg-append_one N m.losses loss h.losses pl in
      elim (Bool-cases (length (m.gains ++ gain ∷ []) == m.period)) [
        | inl full ↦ rw full (
            Returns-bind (NonNeg N) IsRsi _ _
              (divide_period m.period _ h.period_pos (sum_nonneg ordered signed _ gains))
              (λ ag hg.
                Returns-bind (NonNeg N) IsRsi _ _
                  (divide_period m.period _ h.period_pos (sum_nonneg ordered signed _ losses))
                  (λ al hl. record {
                    period_pos = h.period_pos;
                    together = refl;
                    gain = hg;
                    loss = hl;
                    gains = gains;
                    losses = losses;
                  })))
        | inr short ↦ rw short (record {
          period_pos = h.period_pos;
          together = h.together;
          gain = h.gain;
          loss = h.loss;
          gains = gains;
          losses = losses;
        })
      ]
  rsi_average-Returns m (some g) gain loss e pg pl h =
      Returns-bind (NonNeg N) IsRsi _ _
        (smooth-Returns m.period g gain h.period_pos (subst (IsAverage N) (sym e) h.gain) pg)
        (λ new_gain hg.
          Returns-bind (NonNeg N) IsRsi _ _
            (average-Returns m.average_loss (sym h.together ∙ ap is_some (sym e)) h.loss)
            (λ average_loss hl.
              Returns-bind (NonNeg N) IsRsi _ _
                (smooth-Returns m.period average_loss loss h.period_pos hl pl)
                (λ new_loss k. record {
                  period_pos = h.period_pos;
                  together = refl;
                  gain = hg;
                  loss = k;
                  gains = h.gains;
                  losses = h.losses;
                })))

  rsi_update-Returns : (m : RsiEntry N) (close : F) → IsRsi m → Returns IsRsi (rsi_update N m close)
  unfolding rsi_update
  rsi_update-Returns m close h =
      Returns-bind IsRsi IsRsi _ _ (rsi_change_returns m.previous_close) (λ m' k. record {
        period_pos = k.period_pos;
        together = k.together;
        gain = k.gain;
        loss = k.loss;
        gains = k.gains;
        losses = k.losses;
      })
    where
      rsi_change_returns : (p : Option F) → Returns IsRsi (rsi_change N m p close)
      rsi_change_returns none = h
      rsi_change_returns (some p) =
          rsi_average-Returns m m.average_gain _ _ refl (max_nonneg ordered signed _)
            (max_nonneg ordered signed _) h

  -- Over numbers with the laws of `IsOrdered` and `IsSigned`, from a valid state no entry model
  -- raises on any bar, and the state after the bar is valid: the
  -- averages that it compares are set, and it divides by no zero.
  pub get_direction-Returns :
      (m : EntryModel N) (bar : Bar N)
      → IsValid m
      → Returns (λ out. IsValid out.1) (get_direction N m bar)
  unfolding get_direction rsi_direction rsi_signal
  get_direction-Returns (fixed_bias d) bar h = tt
  get_direction-Returns (candle_streak m) bar h = (h.0, length-streak_update m (candle N bar) h.1)
  get_direction-Returns (previous_candle p) bar h = tt
  get_direction-Returns (previous_candle_reverse p) bar h = tt
  get_direction-Returns (ema_entry m) bar h =
      Returns-bind (λ d. Unit {0}) _ (ema_direction N m) _ (ema_direction-Returns m h)
        (λ d u. ema_update-IsEma m bar.close h)
  get_direction-Returns (macd_entry m) bar h =
      Returns-bind (λ d. Unit {0}) _ (macd_direction N m) _ (macd_direction-Returns m h)
        (λ d u. macd_update-IsMacd m bar.close h)
  get_direction-Returns (rsi_entry m) bar h =
      Returns-bind (λ d. Unit {0}) _ (rsi_direction N m) _
        (rsi_signal-Returns m m.average_gain h.together h.gain h.loss)
        (λ d u.
          Returns-bind IsRsi _ (rsi_update N m bar.close) _ (rsi_update-Returns m bar.close h)
            (λ m' k. k))

module _ (N : Num) where
  new_ema_entry-IsValid : (fast slow : ℕ) → Ensures (IsValid {N = N}) (new_ema_entry N fast slow)
  unfolding new_ema_entry
  new_ema_entry-IsValid fast slow = ground arith

  new_macd_entry-IsValid :
      (fast slow signal : ℕ) → Ensures (IsValid {N = N}) (new_macd_entry N fast slow signal)
  unfolding new_macd_entry
  new_macd_entry-IsValid fast slow signal = ground arith

  new_rsi_entry-IsValid :
      (period : ℕ) (oversold overbought : N.F)
      → Ensures (IsValid {N = N}) (new_rsi_entry N period oversold overbought)
  unfolding new_rsi_entry
  new_rsi_entry-IsValid period oversold overbought = ground arith

  new_candle_streak-IsValid :
      (n : ℕ) (mode : String) → Ensures (IsValid {N = N}) (new_candle_streak N n mode)
  unfolding new_candle_streak
  new_candle_streak-IsValid n mode = ground arith

  new_fixed_bias-IsValid : (bias : String) → Ensures (IsValid {N = N}) (new_fixed_bias N bias)
  unfolding new_fixed_bias
  new_fixed_bias-IsValid bias = ground arith

  -- A model that the factory returns is in a valid state.
  pub create_entry-IsValid : (o : EntryOptions N) → Ensures (IsValid {N = N}) (create_entry N o)
  unfolding create_entry
  create_entry-IsValid o = ground (
    arith,
    new_fixed_bias-IsValid o.bias,
    new_candle_streak-IsValid o.streak_length o.streak_mode,
    new_ema_entry-IsValid o.ema_fast o.ema_slow,
    new_macd_entry-IsValid o.macd_fast o.macd_slow o.macd_signal,
    new_rsi_entry-IsValid o.rsi_period o.rsi_oversold o.rsi_overbought,
  )
