-- ===== src/Campaign/Parameters.antt =====
-- qcrl_campaign.py: `validate_parameters`, as the list of its checks in their order. A reader gives
-- what `int`, `float` and `str(...).lower()` make of a text; numbers have twelve decimal places.
use quantconnect.Prelude.{
  ℕ, ◌-◌, ◌*◌, ◌^◌, Bool, true, false, not, ◌&&◌, ◌||◌, Option, none, some, List, [], ◌∷◌, String,
  str_eq, lookup, any, mem_text, if◌then◌else◌, Result, ok, err, value_error, type_error,
  campaign_error, raise_if, ◌>>=◌, ◌>>◌,
}
use quantconnect.Prelude.Int.{ℤ, pos, negsuc, div_ℤ, ltb_ℤ, eqb_ℤ}
use quantconnect.Campaign.{Scalar, number, boolean, string, null, Dict}

pub record Reader : Type 0 where
  pub parse_int : String → Option ℤ
  pub parse_float : String → Option ℤ
  pub lower_text : Scalar → String

abbrev pub reserved_parameters : List String
reserved_parameters = "git_commit" ∷ "git_branch" ∷ "campaign_id" ∷ []

abbrev pub allowed_parameters : List String
allowed_parameters =
    "start_year" ∷ "start_month" ∷ "start_day" ∷ "evaluation_start_year" ∷ "evaluation_start_month"
    ∷ "evaluation_start_day" ∷ "end_year" ∷ "end_month" ∷ "end_day" ∷ "coin" ∷ "timeframe"
    ∷ "entry_model" ∷ "bias" ∷ "streak_length" ∷ "streak_mode" ∷ "stake_mode" ∷ "base_wager"
    ∷ "bankroll" ∷ "multiplier" ∷ "max_steps" ∷ "filter_model" ∷ "ema_fast" ∷ "ema_slow"
    ∷ "macd_fast" ∷ "macd_slow" ∷ "macd_signal" ∷ "rsi_period" ∷ "rsi_oversold" ∷ "rsi_overbought"
    ∷ "adx_period" ∷ "adx_threshold" ∷ "atr_period" ∷ "atr_min_pct" ∷ "atr_max_pct" ∷ "regime_model"
    ∷ "regime_lookback" ∷ "regime_threshold_pct" ∷ "enable_plots" ∷ "plot_every_n_bars"
    ∷ "lab_version" ∷ "run_notes" ∷ []

abbrev pub entry_models : List String
entry_models =
    "fixed_bias" ∷ "previous_candle" ∷ "previous_candle_reverse" ∷ "candle_streak" ∷ "ema_trend"
    ∷ "macd_trend" ∷ "rsi_mean_reversion" ∷ []

abbrev pub filter_models : List String
filter_models = "none" ∷ "ema_trend" ∷ "adx_strength" ∷ "atr_volatility" ∷ []

abbrev pub regime_models : List String
regime_models = "none" ∷ "roc_sign" ∷ []

abbrev pub stake_modes : List String
stake_modes = "flat" ∷ "martingale" ∷ []

-- A number of units, with its decimal places.
abbrev pub whole : ℕ → ℤ
whole n = pos (n * 10 ^ 12)

abbrev pub parsed : Option ℤ → Result ℤ
parsed none = err value_error
parsed (some n) = ok n

abbrev pub default_to : Scalar → Option Scalar → Scalar
default_to default none = default
default_to default (some value) = value

-- `parameters.get(field, default)`
abbrev pub get_or : String → Scalar → Dict → Scalar
get_or field default parameters = default_to default (lookup field parameters)

-- Whether a field is this text as it is written.
abbrev pub is_text : String → Option Scalar → Bool
is_text expected (some (string s)) = str_eq s expected
is_text expected _ = false

-- The first check that raises ends the others.
abbrev pub run_checks : List (Result (Unit {0})) → Result (Unit {0})
run_checks [] = ok tt
run_checks (check ∷ checks) = check >>= λ passed. run_checks checks

abbrev pub require : Bool → Result (Unit {0})
require test = raise_if (not test) campaign_error

abbrev pub only_if : Bool → Result (Unit {0}) → Result (Unit {0})
only_if test check = if test then check else ok tt

abbrev pub leb_ℤ : ℤ → ℤ → Bool
leb_ℤ a b = not (ltb_ℤ b a)

-- `<=` of tuples of three.
abbrev pub leb_date : ℤ × ℤ × ℤ → ℤ × ℤ × ℤ → Bool
leb_date a b =
    ltb_ℤ a.0 b.0 || (eqb_ℤ a.0 b.0 && (ltb_ℤ a.1 b.1 || (eqb_ℤ a.1 b.1 && leb_ℤ a.2 b.2)))

abbrev pub check_range : ℤ × ℤ × ℤ → ℤ × ℤ × ℤ → ℤ × ℤ × ℤ → Result (Unit {0})
check_range start evaluation end = require (leb_date start evaluation && leb_date evaluation end)

module _ (R : Reader) where
  -- `int(value)`
  abbrev pub int_of : Scalar → Result ℤ
  int_of (number n) = ok (div_ℤ n (whole 1))
  int_of (boolean true) = ok (pos 1)
  int_of (boolean false) = ok (pos 0)
  int_of (string s) = parsed (R.parse_int s)
  int_of null = err type_error

  -- `float(value)`
  abbrev pub float_of : Scalar → Result ℤ
  float_of (number n) = ok n
  float_of (boolean true) = ok (whole 1)
  float_of (boolean false) = ok (whole 0)
  float_of (string s) = parsed (R.parse_float s)
  float_of null = err type_error

  abbrev pub get_int : String → ℕ → Dict → Result ℤ
  get_int field default parameters = int_of (get_or field (number (whole default)) parameters)

  abbrev pub get_float : String → ℤ → Dict → Result ℤ
  get_float field default parameters = float_of (get_or field (number default) parameters)

  -- `str(parameters.get(field, default)).lower()`
  abbrev pub get_text : String → String → Dict → String
  get_text field default parameters = R.lower_text (get_or field (string default) parameters)

  abbrev pub int_or : ℤ → Option Scalar → Result ℤ
  int_or default none = ok default
  int_or default (some value) = int_of value

  module _ (parameters : Dict) where
    abbrev pub check_fields : Result (Unit {0})
    check_fields =
        require (not (any (λ item. mem_text item.0 reserved_parameters) parameters))
        >> require (not (any (λ item. not (mem_text item.0 allowed_parameters)) parameters))

    abbrev pub check_models : Result (Unit {0})
    check_models =
        require (mem_text (get_text "entry_model" "" parameters) entry_models)
        >> require (mem_text (get_text "filter_model" "none" parameters) filter_models)
        >> require (mem_text (get_text "regime_model" "none" parameters) regime_models)
        >> require (mem_text (get_text "stake_mode" "" parameters) stake_modes)

    abbrev pub check_bias : Result (Unit {0})
    check_bias =
        only_if (str_eq (get_text "entry_model" "" parameters) "fixed_bias")
          (require (mem_text (get_text "bias" "" parameters) ("up" ∷ "down" ∷ [])))

    abbrev pub check_streak : Result (Unit {0})
    check_streak = only_if (str_eq (get_text "entry_model" "" parameters) "candle_streak") (
        get_int "streak_length" 0 parameters >>= λ length.
        require (not (ltb_ℤ length (pos 1)))
        >> require (mem_text (get_text "streak_mode" "" parameters) ("follow" ∷ "reverse" ∷ [])))

    abbrev pub check_years : Result (Unit {0})
    check_years = get_int "start_year" 0 parameters >>= λ start.
        get_int "end_year" 9999 parameters >>= λ end. require (leb_ℤ start end)

    -- A part of the evaluation's start, which is the start's where it is not given.
    abbrev pub evaluation_part : String → ℤ → Result ℤ
    evaluation_part field start = int_or start (lookup field parameters)

    -- The first day, the first day of the evaluation, and the last day.
    abbrev pub dates_of : Result ((ℤ × ℤ × ℤ) × (ℤ × ℤ × ℤ) × (ℤ × ℤ × ℤ))
    dates_of = do
      start_year ← get_int "start_year" 1 parameters
      start_month ← get_int "start_month" 1 parameters
      start_day ← get_int "start_day" 1 parameters
      year ← evaluation_part "evaluation_start_year" start_year
      month ← evaluation_part "evaluation_start_month" start_month
      day ← evaluation_part "evaluation_start_day" start_day
      end_year ← get_int "end_year" 9999 parameters
      end_month ← get_int "end_month" 9999 parameters
      end_day ← get_int "end_day" 9999 parameters
      ok ((start_year, start_month, start_day), (year, month, day), (end_year, end_month, end_day))

    abbrev pub check_dates : Result (Unit {0})
    check_dates = dates_of >>= λ dates. check_range dates.0 dates.1 dates.2

    -- `min(fast, slow) < 1 or fast >= slow` raises.
    abbrev pub check_periods : String → String → Result (Unit {0})
    check_periods fast slow = get_int fast 0 parameters >>= λ f. get_int slow 0 parameters >>= λ s.
        require (not (ltb_ℤ f (pos 1) || ltb_ℤ s (pos 1) || leb_ℤ s f))

    abbrev pub check_ema : String → Result (Unit {0})
    check_ema field =
        only_if (is_text "ema_trend" (lookup field parameters))
          (check_periods "ema_fast" "ema_slow")

    abbrev pub check_macd : Result (Unit {0})
    check_macd = only_if (is_text "macd_trend" (lookup "entry_model" parameters)) (
        check_periods "macd_fast" "macd_slow"
        >> (get_int "macd_signal" 0 parameters >>= λ signal. require (not (ltb_ℤ signal (pos 1)))))

    abbrev pub check_rsi : Result (Unit {0})
    check_rsi = only_if (is_text "rsi_mean_reversion" (lookup "entry_model" parameters)) (
        get_int "rsi_period" 0 parameters >>= λ period.
        require (not (ltb_ℤ period (pos 1)))
        >> (get_float "rsi_oversold" (negsuc (10 ^ 12 - 1)) parameters >>= λ oversold.
            get_float "rsi_overbought" (whole 101) parameters >>= λ overbought. require (
              leb_ℤ (whole 0) oversold
              && ltb_ℤ oversold overbought
              && leb_ℤ overbought (whole 100))))

    abbrev pub check_adx : Result (Unit {0})
    check_adx = only_if (is_text "adx_strength" (lookup "filter_model" parameters)) (
        get_int "adx_period" 0 parameters >>= λ period.
        require (not (ltb_ℤ period (pos 2)))
        >> (get_float "adx_threshold" (negsuc (10 ^ 12 - 1)) parameters >>= λ threshold.
            require (leb_ℤ (whole 0) threshold && leb_ℤ threshold (whole 100))))

    abbrev pub check_atr : Result (Unit {0})
    check_atr = only_if (is_text "atr_volatility" (lookup "filter_model" parameters)) (
        get_float "atr_min_pct" (negsuc (10 ^ 12 - 1)) parameters >>= λ minimum.
        get_float "atr_max_pct" (negsuc (10 ^ 12 - 1)) parameters >>= λ maximum.
        get_int "atr_period" 0 parameters >>= λ period.
        require (not (ltb_ℤ period (pos 1)))
        >> require (not (ltb_ℤ minimum (whole 0) || leb_ℤ maximum minimum)))

    abbrev pub check_regime : Result (Unit {0})
    check_regime = only_if (str_eq (get_text "regime_model" "none" parameters) "roc_sign") (
        get_int "regime_lookback" 0 parameters >>= λ lookback.
        require (not (ltb_ℤ lookback (pos 1))))

    abbrev pub check_positive : String → Result (Unit {0})
    check_positive field =
        get_float field (whole 1) parameters >>= λ amount. require (not (leb_ℤ amount (whole 0)))

    abbrev pub check_stake : Result (Unit {0})
    check_stake = only_if (str_eq (get_text "stake_mode" "" parameters) "martingale") (
        get_float "multiplier" (whole 0) parameters >>= λ multiplier.
        require (not (leb_ℤ multiplier (whole 1)))
        >> (get_int "max_steps" 0 parameters >>= λ steps. require (not (ltb_ℤ steps (pos 1)))))

    abbrev pub all_checks : List (Result (Unit {0}))
    all_checks =
        check_fields
        ∷ check_models
        ∷ check_bias
        ∷ check_streak
        ∷ check_years
        ∷ check_dates
        ∷ check_ema "filter_model"
        ∷ check_ema "entry_model"
        ∷ check_macd
        ∷ check_rsi
        ∷ check_adx
        ∷ check_atr
        ∷ check_regime
        ∷ check_positive "base_wager"
        ∷ check_positive "bankroll"
        ∷ check_stake
        ∷ []

    unfoldable pub validate_parameters : Result (Unit {0})
    validate_parameters = run_checks all_checks
