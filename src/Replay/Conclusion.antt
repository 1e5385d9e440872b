-- ===== src/Replay/Conclusion.antt =====
-- execution_truth/taker_replay.py: what `execute` keeps of the request that it is given.
use quantconnect.Prelude.{
  ℕ, zero, suc, ◌+◌, ◌-◌, ◌*◌, ◌^◌, ◌≤◌, ltb, ◌==◌, ◌≡◌, ◌≢◌, refl, sym, ◌⊎◌, inl, inr, true, false,
  not, ◌&&◌, ◌||◌, Option, none, some, List, [], ◌∷◌, str_eq, arith, Bool-cases, contract_error,
  Ensures, Ensures-bind, Ensures-raise,
}
use quantconnect.Replay.Amounts.{Parsed, decimal}
use quantconnect.Replay.Asks.{Level, Progress, Terms, StopReason, take_levels}
use quantconnect.Replay.Plan.{AreFills, IsBacked, take_levels-Left}
use quantconnect.Replay.{
  Request, Reason, Estimate, rejected, unfilled, filled, final_stop, total_of, status_of, conclude,
  execute,
}

pow_nonzero : (k : ℕ) → 10 ^ k ≢ 0
pow_nonzero zero = ground arith
pow_nonzero (suc k) = omega (arith, pow_nonzero k)

mul_nonzero : (a b : ℕ) → a ≢ 0 → b ≢ 0 → a * b ≢ 0
mul_nonzero zero b h k = absurd (h refl)
mul_nonzero (suc a) b h k = ground arith

pub decimal_positive : (parsed : Option Parsed) → Ensures (λ v. v ≢ 0) (decimal parsed false)
unfolding decimal
decimal_positive none = tt
decimal_positive (some p) =
    Ensures-raise (λ v. v ≢ 0)
      (not p.finite || (p.negative && not (p.digits == 0)) || (not false && p.digits == 0))
      contract_error _
      λ signed.
        Ensures-raise (λ v. v ≢ 0) (ltb (10 ^ 12 * 10 ^ p.places) p.digits || ltb 12 p.places)
          contract_error _
          λ bounded.
            mul_nonzero p.digits (10 ^ (12 - p.places)) (ground arith) (pow_nonzero (12 - p.places))

-- The fills of an estimate stay within the request: their shares within the requested shares, their
-- cost and fees within the budget, and each of them at a price within the limit and on a tick.
pub record IsWithin (t : Terms) (e : Estimate) : Type 0 where
  fits : total_of (λ f. f.shares) e.fills * 10 ^ 6 ≤ e.requested
  pays :
      total_of (λ f. f.notional) e.fills + total_of (λ f. f.fee) e.fills * 10 ^ 13
      ≤ e.budget * 10 ^ 6
  fills : AreFills t e.fills

-- The status, the reason to stop and the time in force agree with the fills.
pub record IsConclusive (request : Request) (e : Estimate) : Type 0 where
  all_or_none :
      request.time_in_force ≡ "FOK"
      → (e.fills ≡ []) ⊎ (total_of (λ f. f.shares) e.fills * 10 ^ 6 ≡ e.requested)
  whole : e.status ≡ filled → total_of (λ f. f.shares) e.fills * 10 ^ 6 ≡ e.requested
  complete : e.status ≡ filled → e.stop ≡ none
  none_filled : (e.status ≡ rejected) ⊎ (e.status ≡ unfilled) → total_of (λ f. f.shares) e.fills ≡ 0
  explained : e.reasons ≡ [] → e.stop ≡ none → e.status ≡ filled

final_stop-none :
    (remaining : ℕ) (stop : Option StopReason) → final_stop remaining stop ≡ none → remaining ≡ 0
final_stop-none zero stop h = refl
final_stop-none (suc n) none h = cc
final_stop-none (suc n) (some s) h = cc

final_stop_zero :
    (remaining : ℕ) (stop : Option StopReason)
    → (stop ≡ none) ⊎ (remaining ≢ 0)
    → remaining ≡ 0
    → final_stop remaining stop ≡ none
final_stop_zero zero stop (inl h) k = h
final_stop_zero zero stop (inr h) k = absurd (h k)
final_stop_zero (suc n) stop h k = absurd (ground arith)

status_of_filled :
    (shares requested : ℕ) → status_of [] shares requested ≡ filled → shares * 10 ^ 6 ≡ requested
unfolding status_of
status_of_filled shares requested h = ground arith

status_of_whole :
    (shares requested : ℕ)
    → requested ≢ 0
    → shares * 10 ^ 6 ≡ requested
    → status_of [] shares requested ≡ filled
unfolding status_of
status_of_whole shares requested h k = ground arith

status_of_none :
    (shares requested : ℕ)
    → (status_of [] shares requested ≡ rejected) ⊎ (status_of [] shares requested ≡ unfilled)
    → shares ≡ 0
unfolding status_of
status_of_none shares requested h = ground arith

module _ (t : Terms) (request : Request) (requested budget : ℕ) where
  conclude-IsWithin :
      (p : Progress)
      → IsBacked t requested (budget * 10 ^ 6) p
      → IsWithin t (conclude request requested budget p)
  unfolding conclude
  conclude-IsWithin p h =
      elim (Bool-cases (str_eq request.time_in_force "FOK" && not (p.remaining == 0))) [
        | inl killed ↦ rw killed (record { fits = ground arith; pays = ground arith; fills = tt })
        | inr kept ↦ rw kept (record {
          fits = omega (arith, h.shares);
          pays = omega (arith, h.money);
          fills = h.fills;
        })
      ]

  conclude-IsConclusive :
      (p : Progress)
      → requested ≢ 0
      → IsBacked t requested (budget * 10 ^ 6) p
      → (p.stop ≡ none) ⊎ (p.remaining ≢ 0)
      → IsConclusive request (conclude request requested budget p)
  unfolding conclude
  conclude-IsConclusive p positive h k =
      let total = total_of (λ f. f.shares) p.fills in
      elim (Bool-cases (str_eq request.time_in_force "FOK" && not (p.remaining == 0))) [
        | inl killed ↦ rw killed (record {
          all_or_none = λ e. inl refl;
          whole = status_of_filled 0 requested;
          complete = λ e. absurd (positive (sym (status_of_filled 0 requested e)));
          none_filled = λ e. refl;
          explained = λ e. cc;
        })
        | inr kept ↦ rw kept (record {
          all_or_none = λ fok.
              let test : str_eq request.time_in_force "FOK" ≡ true = rw fok refl in
              let bought : p.remaining ≡ 0 = ground arith in inr (omega (arith, bought, h.shares));
          whole = status_of_filled total requested;
          complete = λ e.
              final_stop_zero p.remaining p.stop k
                (omega (arith, status_of_filled total requested e, h.shares));
          none_filled = status_of_none total requested;
          explained = λ e stop.
              status_of_whole total requested positive
                (omega (arith, final_stop-none p.remaining p.stop stop, h.shares));
        })
      ]

  pub execute-IsWithin :
      (reasons : List Reason) (asks : List Level)
      → requested ≢ 0
      → Ensures
          (λ e. IsWithin t e × IsConclusive request e)
          (execute reasons t request requested budget asks)
  unfolding execute
  execute-IsWithin (reason ∷ more) asks positive = (
    record { fits = ground arith; pays = ground arith; fills = tt },
    record {
      all_or_none = λ e. inl refl;
      whole = λ e. absurd cc;
      complete = λ e. refl;
      none_filled = λ e. refl;
      explained = λ e. cc;
    },
  )
  execute-IsWithin [] asks positive =
      let start : Progress = record {
        remaining = requested;
        remaining_cash = budget * 10 ^ 6;
        fills = [];
        stop = none;
      } in
      Ensures-bind _ (λ e. IsWithin t e × IsConclusive request e) (take_levels t start asks) _
        (take_levels-Left t requested (budget * 10 ^ 6) start asks
          (record { shares = omega arith; money = omega arith; fills = tt }) refl positive)
        λ p left. (conclude-IsWithin p left.0, conclude-IsConclusive p positive left.0 left.1)
