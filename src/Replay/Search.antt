-- ===== src/Replay/Search.antt =====
-- execution_truth/taker_replay.py: the integer search of `_replay` for the largest number of share
-- steps that the cash pays for. The fuel is the width of the interval and one, which is enough,
-- since each round narrows it.
use quantconnect.Prelude.{
  ℕ, zero, suc, ◌+◌, ◌-◌, ◌/◌, ◌≤◌, ◌<◌, ltb, leb, inl, inr, arith, if◌then◌else◌, Bool-cases,
  leb→le,
}

-- `while low < high`, with the test of the middle.
unfoldable pub search_steps : ℕ → (ℕ → ℕ) → ℕ → ℕ → ℕ → ℕ
search_steps zero cost cash low high = low
search_steps (suc fuel) cost cash low high =
    let middle = (low + high + 1) / 2 in
    let rest =
      search_steps fuel cost cash (if leb (cost middle) cash then middle else low)
        (if leb (cost middle) cash then high else middle - 1) in
    if ltb low high then rest else low

unfoldable pub largest_affordable : (ℕ → ℕ) → ℕ → ℕ → ℕ
unfolding search_steps
largest_affordable cost cash maximum = search_steps (suc maximum) cost cash 0 maximum

module _ (cost : ℕ → ℕ) (cash : ℕ) where
  -- What the search returns: the largest number of the interval that the cash pays for.
  pub record IsLargest (low high q : ℕ) : Type 0 where
    pub above : low ≤ q
    pub below : q ≤ high
    pub pays : cost q ≤ cash
    pub best : (k : ℕ) → q < k → k ≤ high → cash < cost k

module _ (cost : ℕ → ℕ) (cash : ℕ) (grows : (a b : ℕ) → a ≤ b → cost a ≤ cost b) where
  -- Past a middle that is too dear everything is.
  too_dear :
      (low high k q : ℕ)
      → q < k
      → ((j : ℕ) → q < j → j ≤ (low + high + 1) / 2 - 1 → cash < cost j)
      → cash < cost ((low + high + 1) / 2)
      → cash < cost k
  too_dear low high k q over best dear =
      let middle = (low + high + 1) / 2 in
      elim (Bool-cases (ltb k middle)) [
        | inl under ↦ best k over (ground arith)
        | inr past ↦ ground (arith, grows middle k)
      ]

  search_steps-IsLargest :
      (fuel low high : ℕ)
      → high - low < fuel
      → low ≤ high
      → cost low ≤ cash
      → IsLargest cost cash low high (search_steps fuel cost cash low high)
  unfolding search_steps
  search_steps-IsLargest zero low high enough order pays = absurd (omega arith)
  search_steps-IsLargest (suc fuel) low high enough order pays =
      let middle = (low + high + 1) / 2 in
      elim (Bool-cases (ltb low high)) [
        | inl wide ↦ elim (Bool-cases (leb (cost middle) cash)) [
          | inl paid ↦
              rw (wide, paid)
                (let upper =
                    search_steps-IsLargest fuel middle high (ground arith) (ground arith)
                      (leb→le (cost middle) cash paid) in
                  record {
                    above = ground (arith, upper.above);
                    below = upper.below;
                    pays = upper.pays;
                    best = upper.best;
                  })
          | inr short ↦
              rw (wide, short)
                (let lower =
                    search_steps-IsLargest fuel low (middle - 1) (ground arith) (ground arith)
                      pays in
                  record {
                    above = lower.above;
                    below = ground (arith, lower.below);
                    pays = lower.pays;
                    best = λ k over under.
                        too_dear low high k (search_steps fuel cost cash low (middle - 1)) over
                          lower.best (ground arith);
                  })
        ]
        | inr closed ↦ rw closed (record {
          above = omega arith;
          below = order;
          pays = pays;
          best = λ k over under. absurd (ground arith);
        })
      ]

  -- The search finds the largest number of share steps up to the maximum that the cash pays for,
  -- where a larger number costs no less and none costs nothing that the cash has not.
  pub largest_affordable-IsLargest :
      (maximum : ℕ)
      → cost 0 ≤ cash
      → IsLargest cost cash 0 maximum (largest_affordable cost cash maximum)
  unfolding largest_affordable
  largest_affordable-IsLargest maximum free =
      search_steps-IsLargest (suc maximum) 0 maximum (omega arith) (omega arith) free
