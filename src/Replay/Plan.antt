-- ===== src/Replay/Plan.antt =====
-- execution_truth/taker_replay.py: what an estimate promises of its fills.
use quantconnect.Prelude.{
  ℕ, ◌+◌, ◌-◌, ◌*◌, ◌%◌, ◌^◌, ◌≤◌, ◌<◌, ltb, leb, ◌==◌, ◌≡◌, ◌≢◌, refl, ◌∙◌, ◌⊎◌, inl, inr, Bool,
  true, false, not, ◌&&◌, ◌||◌, none, some, List, [], ◌∷◌, ◌++◌, arith, if◌then◌else◌, Bool-cases,
  ok, contract_error, raise_if, ◌>>◌, Ensures, Ensures-bind, Ensures-any, Ensures-raise,
}
use native.Mathlib.Nat.{mul-le-mul_right}
use quantconnect.Replay.Amounts.{decimal}
use quantconnect.Replay.Rounding.{fee_of, fee_of_mono, fee_of_zero}
use quantconnect.Replay.Search.{IsLargest, largest_affordable-IsLargest}
use quantconnect.Replay.Asks.{
  Level, Fill, Progress, Terms, price_limit, fee_per_share, cost_of, maximum_of, quantity_of,
  fill_level, after_fill, buy_level, take_level, take_levels,
}
use quantconnect.Replay.{total_of}

cost_of_mono : (t : Terms) (price a b : ℕ) → a ≤ b → cost_of t price a ≤ cost_of t price b
unfolding cost_of
cost_of_mono t price a b h =
    let shares : a * price ≤ b * price = mul-le-mul_right price h in
    omega (arith, fee_of_mono (fee_per_share t price) a b h)

cost_of_zero : (t : Terms) (price : ℕ) → cost_of t price 0 ≡ 0
unfolding cost_of
cost_of_zero t price = omega (arith, fee_of_zero (fee_per_share t price))

-- At every level, whatever the fee rate, the quantity is the largest number of share steps, within
-- the remaining shares and the level's depth, whose notional and rounded fee the remaining cash
-- pays for.
pub quantity_of-IsLargest :
    (t : Terms) (p : Progress) (price depth : ℕ)
    → IsLargest
        (cost_of t price)
        p.remaining_cash
        0
        (maximum_of p.remaining depth)
        (quantity_of t p price depth)
unfolding quantity_of
quantity_of-IsLargest t p price depth =
    largest_affordable-IsLargest (cost_of t price) p.remaining_cash (cost_of_mono t price) _
      (omega (arith, cost_of_zero t price))

total_of-append_one :
    (f : Fill → ℕ) (xs : List Fill) (x : Fill) → total_of f (xs ++ x ∷ []) ≡ total_of f xs + f x
total_of-append_one f [] x = omega arith
total_of-append_one f (y ∷ ys) x = omega (arith, total_of-append_one f ys x)

-- A fill respects the limit and the market's ticks, and its notional is its shares at its price.
pub record IsFill (t : Terms) (f : Fill) : Type 0 where
  pub within : f.price ≤ t.limit
  pub on_tick : f.price % t.tick ≡ 0
  pub above_tick : t.tick ≤ f.price
  pub some_shares : 0 < f.shares
  pub at_price : f.notional ≡ f.shares * f.price
  pub at_fee : f.fee ≡ fee_of (fee_per_share t f.price) f.shares

abbrev pub AreFills : Terms → List Fill → Type 0
AreFills t [] = Unit
AreFills t (f ∷ fs) = IsFill t f × AreFills t fs

AreFills-append_one :
    (t : Terms) (fs : List Fill) (f : Fill) → AreFills t fs → IsFill t f → AreFills t (fs ++ f ∷ [])
AreFills-append_one t [] f h k = (k, tt)
AreFills-append_one t (g ∷ gs) f h k = (h.0, AreFills-append_one t gs f h.1 k)

-- The shares and the cash of the request are what remains and what the fills took.
pub record IsBacked (t : Terms) (requested cash : ℕ) (p : Progress) : Type 0 where
  pub shares : p.remaining + total_of (λ f. f.shares) p.fills * 10 ^ 6 ≡ requested
  pub money :
      p.remaining_cash
        + total_of (λ f. f.notional) p.fills
        + total_of (λ f. f.fee) p.fills * 10 ^ 13
      ≡ cash
  pub fills : AreFills t p.fills

within_remaining :
    (remaining depth quantity : ℕ)
    → quantity ≤ maximum_of remaining depth
    → quantity * 10 ^ 6 ≤ remaining
unfolding maximum_of
within_remaining remaining depth quantity h = omega arith

module _ (t : Terms) (requested cash : ℕ) where
  fill_level-IsBacked :
      (p : Progress) (price quantity : ℕ)
      → price ≤ t.limit
      → price % t.tick ≡ 0
      → t.tick ≤ price
      → quantity * 10 ^ 6 ≤ p.remaining
      → cost_of t price quantity ≤ p.remaining_cash
      → IsBacked t requested cash p
      → IsBacked t requested cash (fill_level t p price quantity)
  unfolding fill_level cost_of
  fill_level-IsBacked p price quantity limit tick low fits pays h =
      let fill : Fill = record {
        price = price;
        shares = quantity;
        notional = quantity * price;
        fee = fee_of (fee_per_share t price) quantity;
      } in
      elim (Bool-cases (ltb 0 quantity)) [
        | inl bought ↦ rw bought (record {
          shares = omega (arith, h.shares, total_of-append_one (λ f. f.shares) p.fills fill);
          money = omega (
            arith,
            h.money,
            total_of-append_one (λ f. f.notional) p.fills fill,
            total_of-append_one (λ f. f.fee) p.fills fill,
          );
          fills = AreFills-append_one t p.fills fill h.fills (record {
            within = limit;
            on_tick = tick;
            above_tick = low;
            some_shares = ground arith;
            at_price = refl;
            at_fee = refl;
          });
        })
        | inr nothing ↦ rw nothing h
      ]

  -- The loop goes on only with no reason to stop, and has one only while shares remain.
  abbrev Kept : Progress × Bool → Type 0
  Kept (p, again) =
      IsBacked t requested cash p
      × (again ≡ true → (p.stop ≡ none) × (p.remaining ≢ 0))
      × ((p.stop ≡ none) ⊎ (p.remaining ≢ 0))

  after_fill-Kept :
      (p : Progress) (quantity maximum : ℕ)
      → IsBacked t requested cash p
      → p.stop ≡ none
      → Kept (after_fill p quantity maximum)
  unfolding after_fill
  after_fill-Kept p quantity maximum h going = elim (Bool-cases (p.remaining == 0)) [
    | inl bought_all ↦ rw bought_all (h, (λ e. cc), inl going)
    | inr more ↦ elim (Bool-cases (ltb quantity maximum)) [
      | inl short ↦
          rw (more, short)
            (
              record { shares = h.shares; money = h.money; fills = h.fills },
              (λ e. cc),
              inr (ground arith),
            )
      | inr whole ↦ rw (more, whole) (h, (λ e. (going, ground arith)), inl going)
    ]
  ]

  stop-fill_level :
      (p : Progress) (price quantity : ℕ) → (fill_level t p price quantity).stop ≡ p.stop
  unfolding fill_level
  stop-fill_level p price quantity = ground arith

  buy_level-Kept :
      (p : Progress) (price depth : ℕ)
      → price ≤ t.limit
      → price % t.tick ≡ 0
      → t.tick ≤ price
      → IsBacked t requested cash p
      → p.stop ≡ none
      → Kept (buy_level t p price depth)
  unfolding buy_level
  buy_level-Kept p price depth limit tick low h going =
      let quantity = quantity_of t p price depth in
      let best = quantity_of-IsLargest t p price depth in
      after_fill-Kept (fill_level t p price quantity) quantity (maximum_of p.remaining depth)
        (fill_level-IsBacked p price quantity limit tick low
          (within_remaining p.remaining depth quantity best.below) best.pays h)
        (stop-fill_level p price quantity ∙ going)

  take_level-Kept :
      (p : Progress) (level : Level)
      → IsBacked t requested cash p
      → p.stop ≡ none
      → p.remaining ≢ 0
      → Ensures Kept (take_level t p level)
  unfolding take_level
  take_level-Kept p level h going left =
      Ensures-bind (λ x. Unit {0}) Kept (decimal level.price false) _ (Ensures-any _)
        λ price u.
          Ensures-bind (λ x. Unit {0}) Kept (decimal level.size false) _ (Ensures-any _)
            λ depth v. priced price depth
    where
      priced :
          (price depth : ℕ)
          → Ensures Kept (
              raise_if
                (not (price % t.tick == 0)
                  || not (leb t.tick price && leb price (10 ^ 12 - t.tick)))
                contract_error
              >> ok (
                  if ltb t.limit price
                  then (record p { stop = some price_limit }, false)
                  else buy_level t p price depth))
      priced price depth =
          Ensures-raise Kept
            (not (price % t.tick == 0) || not (leb t.tick price && leb price (10 ^ 12 - t.tick)))
            contract_error _
            λ fine. elim (Bool-cases (ltb t.limit price)) [
              | inl high ↦ rw high (
                record { shares = h.shares; money = h.money; fills = h.fills },
                (λ e. cc),
                inr left,
              )
              | inr limited ↦ rw limited (
                  buy_level-Kept p price depth (ground arith) (ground arith) (ground arith) h going)
            ]

  -- What the loop leaves.
  abbrev Left : Progress → Type 0
  Left p = IsBacked t requested cash p × ((p.stop ≡ none) ⊎ (p.remaining ≢ 0))

  pub take_levels-Left :
      (p : Progress) (levels : List Level)
      → IsBacked t requested cash p
      → p.stop ≡ none
      → p.remaining ≢ 0
      → Ensures Left (take_levels t p levels)
  unfolding take_levels
  take_levels-Left p [] h going left = (h, inl going)
  take_levels-Left p (level ∷ levels) h going left =
      Ensures-bind Kept Left (take_level t p level) _ (take_level-Kept p level h going left)
        λ out kept. elim (Bool-cases out.1) [
          | inl again ↦
              let more = kept.1 again in
              rw again (take_levels-Left out.0 levels kept.0 more.0 more.1)
          | inr done ↦ rw done (kept.0, kept.2)
        ]
