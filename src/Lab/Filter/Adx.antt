-- ===== src/Lab/Filter/Adx.antt =====
-- filter_models.py: the ADX strength filter.
use quantconnect.Prelude.{
  ℕ, ◌-◌, ◌==◌, ltb, Bool, false, not, ◌&&◌, Option, none, some, List, [], ◌∷◌, ◌++◌, String,
  if◌then◌else◌, length, is_some, Result, ok, value_of, value_error, raise_if, ◌>>=◌, ◌>>◌,
}
use quantconnect.Num.{Num, le, max_of, abs_of, divide, sum_of}
use quantconnect.Lab.Market.{Bar}

module _ (N : Num) where
  open N use {F, lt, eq, add, sub, mul, of_ℕ}

  pub record AdxStrength : Type 0 where
    pub period : ℕ
    pub threshold : F
    pub previous_high : Option F
    pub previous_low : Option F
    pub previous_close : Option F
    pub true_ranges : List F
    pub positive_dm : List F
    pub negative_dm : List F
    pub dx_values : List F
    pub smoothed_true_range : Option F
    pub smoothed_positive_dm : Option F
    pub smoothed_negative_dm : Option F
    pub adx_value : Option F

  unfoldable pub adx_ready : AdxStrength → Bool
  adx_ready m = is_some m.adx_value

  -- `max(high - low, abs(high - previous), abs(low - previous))`
  abbrev pub true_range : Bar N → F → F
  true_range bar previous =
      max_of N (max_of N (sub bar.high bar.low) (abs_of N (sub bar.high previous)))
        (abs_of N (sub bar.low previous))

  -- A move counts where it is above the other one and above zero.
  abbrev pub move_of : F → F → F
  move_of this other = if lt other this && lt (of_ℕ 0) this then this else of_ℕ 0

  -- `_directional_index`, with the fields that it reads; the first is `None` or zero at the start.
  unfoldable pub directional_index : Option F → Option F → Option F → Result F
  directional_index none positive negative = ok (of_ℕ 0)
  directional_index (some range) positive negative = if eq range (of_ℕ 0) then ok (of_ℕ 0) else do
    positive_dm ← value_of positive
    positive_di ← divide N (mul (of_ℕ 100) positive_dm) range
    negative_dm ← value_of negative
    negative_di ← divide N (mul (of_ℕ 100) negative_dm) range
    let denominator = add positive_di negative_di
    if eq denominator (of_ℕ 0)
        then ok (of_ℕ 0)
        else divide N (mul (of_ℕ 100) (abs_of N (sub positive_di negative_di))) denominator

  -- The branch before the first smoothing.
  unfoldable pub adx_collect : AdxStrength → F → F → F → Result AdxStrength
  adx_collect m range positive negative =
      let ranges = m.true_ranges ++ range ∷ [] in
      let positives = m.positive_dm ++ positive ∷ [] in
      let negatives = m.negative_dm ++ negative ∷ [] in
      let collected = record m {
        true_ranges = ranges;
        positive_dm = positives;
        negative_dm = negatives;
      } in
      if length ranges == m.period
      then (do
        dx ←
            directional_index (some (sum_of N ranges)) (some (sum_of N positives))
              (some (sum_of N negatives))
        ok (record collected {
          smoothed_true_range = some (sum_of N ranges);
          smoothed_positive_dm = some (sum_of N positives);
          smoothed_negative_dm = some (sum_of N negatives);
          dx_values = m.dx_values ++ dx ∷ [];
        }))
      else ok collected

  -- `s - s / period + x`
  unfoldable pub wilder : ℕ → Option F → F → Result F
  wilder period smoothed x = do
    s ← value_of smoothed
    share ← divide N s (of_ℕ period)
    ok (add (sub s share) x)

  -- The first average of the directional index, or the next one.
  unfoldable pub adx_average : AdxStrength → Option F → F → Result AdxStrength
  adx_average m none dx =
      let values = m.dx_values ++ dx ∷ [] in
      if length values == m.period
      then (do
        average ← divide N (sum_of N values) (of_ℕ m.period)
        ok (record m { dx_values = values; adx_value = some average }))
      else ok (record m { dx_values = values })
  adx_average m (some value) dx = do
    average ← divide N (add (mul value (of_ℕ (m.period - 1))) dx) (of_ℕ m.period)
    ok (record m { adx_value = some average })

  -- The branch after the first smoothing.
  unfoldable pub adx_smooth : AdxStrength → F → F → F → Result AdxStrength
  adx_smooth m range positive negative = do
    smoothed_range ← wilder m.period m.smoothed_true_range range
    smoothed_positive ← wilder m.period m.smoothed_positive_dm positive
    smoothed_negative ← wilder m.period m.smoothed_negative_dm negative
    let smoothed = record m {
      smoothed_true_range = some smoothed_range;
      smoothed_positive_dm = some smoothed_positive;
      smoothed_negative_dm = some smoothed_negative;
    }
    dx ← directional_index (some smoothed_range) (some smoothed_positive) (some smoothed_negative)
    adx_average smoothed m.adx_value dx

  -- The branch by whether there is a smoothed range.
  unfoldable pub adx_branch : AdxStrength → Option F → F → F → F → Result AdxStrength
  adx_branch m none range positive negative = adx_collect m range positive negative
  adx_branch m (some smoothed) range positive negative = adx_smooth m range positive negative

  -- The body of `if self.previous_close is not None`.
  unfoldable pub adx_move : AdxStrength → Option F → Bar N → Result AdxStrength
  adx_move m none bar = ok m
  adx_move m (some previous) bar = do
    previous_high ← value_of m.previous_high
    previous_low ← value_of m.previous_low
    let upward = sub bar.high previous_high
    let downward = sub previous_low bar.low
    adx_branch m m.smoothed_true_range (true_range bar previous) (move_of upward downward)
        (move_of downward upward)

  unfoldable pub adx_take : AdxStrength → Bar N → Result AdxStrength
  unfolding adx_move adx_branch
  adx_take m bar = do
    moved ← adx_move m m.previous_close bar
    ok (record moved {
      previous_high = some bar.high;
      previous_low = some bar.low;
      previous_close = some bar.close;
    })

  unfoldable pub adx_allows : AdxStrength → Result Bool
  unfolding adx_ready
  adx_allows m =
      if adx_ready m
      then (do value ← value_of m.adx_value; ok (le N m.threshold value))
      else ok false

  unfoldable pub adx_regime : AdxStrength → Result String
  unfolding adx_ready
  adx_regime m =
      if adx_ready m
      then (do
        value ← value_of m.adx_value
        ok (if le N m.threshold value then "trend" else "range"))
      else ok "not_ready"

  unfoldable pub new_adx_strength : ℕ → F → Result AdxStrength
  new_adx_strength period threshold = do
    raise_if (ltb period 2) value_error
    raise_if (not (le N (of_ℕ 0) threshold && le N threshold (of_ℕ 100))) value_error
    ok (record {
      period = period;
      threshold = threshold;
      previous_high = none;
      previous_low = none;
      previous_close = none;
      true_ranges = [];
      positive_dm = [];
      negative_dm = [];
      dx_values = [];
      smoothed_true_range = none;
      smoothed_positive_dm = none;
      smoothed_negative_dm = none;
      adx_value = none;
    })
