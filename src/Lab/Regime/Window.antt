-- ===== src/Lab/Regime/Window.antt =====
-- regime_models.py: the regime model never raises, and its window is the last closes.
use quantconnect.Prelude.{
  ℕ, ◌+◌, ◌-◌, ◌≤◌, min, ltb, leb, ◌==◌, ◌≡◌, sym, ap, ◌∙◌, true, false, inl, inr, List, [], ◌∷◌,
  ◌++◌, arith, if◌then◌else◌, length, drop, take_last, Bool-cases, length-append, length-take_last,
  take_last-short, take_last-slide, Returns, Returns-bind, Result, ok, ◌>>=◌,
}
use mathlib.Core.List.{append_assoc, append-nil}
use quantconnect.Num.{Num, divide}
use quantconnect.Num.Signs.{divide-Returns}
use quantconnect.Lab.Stats.{MarketRegime, not_ready}
use quantconnect.Lab.Regime.{
  RocSign, RegimeModel, no_regime, roc_sign, roc_ready, roc_take, last_of, roc_rate, roc_telemetry,
  sign_of, market_regime,
}

module _ (N : Num) where
  open N use {F, lt, eq, of_ℕ}

  roc_rate-Returns : (closes : List F) → Returns (λ v. Unit {0}) (roc_rate N closes)
  unfolding roc_rate
  roc_rate-Returns [] = tt
  roc_rate-Returns (first ∷ rest) = elim (Bool-cases (eq first (of_ℕ 0))) [
    | inl zero_close ↦ rw zero_close tt
    | inr priced ↦ rw priced (
        Returns-bind (λ q. Unit {0}) (λ v. Unit {0}) (divide N (last_of N first rest) first) _
          (divide-Returns N (last_of N first rest) first priced) λ q u. tt)
  ]

  -- The regime model answers in every state: it never divides by a zero close.
  pub market_regime-Returns : (m : RegimeModel N) → Returns (λ r. Unit {0}) (market_regime N m)
  unfolding market_regime roc_telemetry
  market_regime-Returns no_regime = tt
  market_regime-Returns (roc_sign m) = elim (Bool-cases (roc_ready N m)) [
    | inl ready ↦ rw ready (
        Returns-bind (λ v. Unit {0}) (λ r. Unit {0}) (roc_rate N m.closes) _
          (roc_rate-Returns m.closes) λ v u. tt)
    | inr warming ↦ rw warming tt
  ]

  -- The model after some closes.
  abbrev pub take_closes : RocSign N → List F → RocSign N
  take_closes m [] = m
  take_closes m (c ∷ cs) = take_closes (roc_take N m c) cs

  abbrev pub window : ℕ → F → List F → RocSign N
  window n t closes = record { lookback = n; threshold_percent = t; closes = closes }

  closes_path : (n : ℕ) (t : F) {xs ys : List F} → xs ≡ ys → window n t xs ≡ window n t ys
  closes_path n t e = ap (window n t) e

  take_window :
      (n : ℕ) (t : F) (history : List F) (c : F)
      → roc_take N
          (record { lookback = n; threshold_percent = t; closes = take_last (n + 1) history })
          c
        ≡ record {
          lookback = n;
          threshold_percent = t;
          closes = take_last (n + 1) (history ++ c ∷ []);
        }
  unfolding roc_take
  take_window n t history c =
      let closes = take_last (n + 1) history ++ c ∷ [] in
      let size : length closes ≡ length (take_last (n + 1) history) + 1 =
        length-append (take_last (n + 1) history) (c ∷ []) ∙ omega arith in
      let bound : length closes ≤ n + 2 = omega (arith, length-take_last (n + 1) history) in
      let slid : take_last (n + 1) closes ≡ take_last (n + 1) (history ++ c ∷ []) =
        take_last-slide (n + 1) history c in
      elim (Bool-cases (ltb (n + 1) (length closes))) [
        | inl longer ↦ rw longer (
            let one : 1 ≡ length closes - (n + 1) = ground (arith, bound) in
            closes_path n t (ap (λ k. drop k closes) one ∙ slid))
        | inr fits ↦ rw fits (
            let short : length closes ≤ n + 1 = ground arith in
            closes_path n t (sym (take_last-short (n + 1) closes short) ∙ slid))
      ]

  take_closes_window :
      (n : ℕ) (t : F) (history : List F) (cs : List F)
      → take_closes
          (record { lookback = n; threshold_percent = t; closes = take_last (n + 1) history })
          cs
        ≡ record { lookback = n; threshold_percent = t; closes = take_last (n + 1) (history ++ cs) }
  take_closes_window n t history [] = rw append-nil
  take_closes_window n t history (c ∷ cs) =
      ap (λ m. take_closes m cs) (take_window n t history c)
      ∙ take_closes_window n t (history ++ c ∷ []) cs
      ∙ ap (λ h. window n t (take_last (n + 1) h)) (append_assoc history (c ∷ []) cs)

  -- The regime as a reading of all closes: the change from the close `n` bars before the last one.
  abbrev pub history_regime : ℕ → F → List F → Result MarketRegime
  history_regime n t history =
      if leb (n + 1) (length history)
      then roc_rate N (take_last (n + 1) history) >>= (λ value. ok (sign_of N t value))
      else ok not_ready

  read_window :
      (n : ℕ) (t : F) (history : List F)
      → market_regime N (roc_sign (window n t (take_last (n + 1) history)))
        ≡ history_regime n t history
  unfolding market_regime roc_telemetry roc_ready
  read_window n t history =
      let size : length (take_last (n + 1) history) ≡ min (n + 1) (length history) =
        length-take_last (n + 1) history in
      elim (Bool-cases (leb (n + 1) (length history))) [
        | inl full ↦
            (let ready : (length (take_last (n + 1) history) == (n + 1)) ≡ true = ground arith in
              rw (full, ready))
        | inr short ↦
            (let warming : (length (take_last (n + 1) history) == (n + 1)) ≡ false = ground arith in
              rw (short, warming))
      ]

  -- A new rate-of-change model that has taken in any closes reports the regime that a reading of
  -- all of them gives: none before there are `n + 1`, and then the sign of the change against the
  -- threshold over the last `n + 1`.
  pub market_regime_history :
      (n : ℕ) (t : F) (closes : List F)
      → market_regime N (roc_sign (take_closes (window n t []) closes)) ≡ history_regime n t closes
  market_regime_history n t closes =
      ap (λ m. market_regime N (roc_sign m))
        (ap (λ start. take_closes (window n t start) closes)
            (sym (take_last-short (n + 1) [] (omega arith)))
          ∙ take_closes_window n t [] closes)
      ∙ read_window n t closes
