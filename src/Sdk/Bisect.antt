-- ===== src/Sdk/Bisect.antt =====
-- The search that `Shrink`, `fitRunes` and `longestLabelThatFits` of sdk/go/render.go share: the
-- largest number in a range that passes a test, if the numbers that pass it are an initial range.
use openussd.Prelude.{
  ℕ, zero, suc, ◌+◌, ◌-◌, ◌/◌, ◌≤◌, ◌<◌, ◌≡◌, refl, ◌⊎◌, inl, inr, Bool, true, false, arith, ltb,
  leb, leb→le, Bool-cases,
}

-- `for lo < hi { mid := (lo + hi + 1) / 2; if fits(mid) { lo = mid } else { hi = mid - 1 } }`
unfoldable pub bisect : (ℕ → Bool) → ℕ → ℕ → ℕ → ℕ
bisect fits zero lo hi = lo
bisect fits (suc fuel) lo hi = elim (ltb lo hi) [
  | true ↦ elim (fits ((lo + hi + 1) / 2)) [
    | true ↦ bisect fits fuel ((lo + hi + 1) / 2) hi
    | false ↦ bisect fits fuel lo ((lo + hi + 1) / 2 - 1)
  ]
  | false ↦ lo
]

-- The range shrinks in every round, so its upper end is enough fuel.
unfoldable pub longest : (ℕ → Bool) → ℕ → ℕ
unfolding bisect
longest fits hi = bisect fits hi 0 hi

-- `r` is in the range, passes the test unless it is the lower end, and the next number fails it
-- unless `r` is the upper end.
pub record IsEdge (fits : ℕ → Bool) (lo hi r : ℕ) : Type 0 where
  pub low : lo ≤ r
  pub high : r ≤ hi
  pub passes : (r ≡ lo) ⊎ (fits r ≡ true)
  pub stops : (r ≡ hi) ⊎ (fits (r + 1) ≡ false)

module _ (fits : ℕ → Bool) where
  bisect_up :
      (fuel lo hi : ℕ)
      → ltb lo hi ≡ true
      → fits ((lo + hi + 1) / 2) ≡ true
      → bisect fits (suc fuel) lo hi ≡ bisect fits fuel ((lo + hi + 1) / 2) hi
  unfolding bisect
  bisect_up fuel lo hi more p = rw (more, p, bisect)

  bisect_down :
      (fuel lo hi : ℕ)
      → ltb lo hi ≡ true
      → fits ((lo + hi + 1) / 2) ≡ false
      → bisect fits (suc fuel) lo hi ≡ bisect fits fuel lo ((lo + hi + 1) / 2 - 1)
  unfolding bisect
  bisect_down fuel lo hi more p = rw (more, p, bisect)

  bisect_done : (fuel lo hi : ℕ) → ltb lo hi ≡ false → bisect fits (suc fuel) lo hi ≡ lo
  unfolding bisect
  bisect_done fuel lo hi done = rw (done, bisect)

  IsEdge-up :
      (lo hi mid r : ℕ) → lo ≤ mid → fits mid ≡ true → IsEdge fits mid hi r → IsEdge fits lo hi r
  IsEdge-up lo hi mid r h p e = record {
    low = omega (arith, e.low);
    high = e.high;
    passes = inr (elim e.passes [ inl same ↦ rw same p | inr q ↦ q ]);
    stops = e.stops;
  }

  IsEdge-down :
      (lo hi mid r : ℕ)
      → 0 < mid
      → mid ≤ hi
      → fits mid ≡ false
      → IsEdge fits lo (mid - 1) r
      → IsEdge fits lo hi r
  IsEdge-down lo hi mid r pos h p e = record {
    low = e.low;
    high = omega (arith, e.high);
    passes = e.passes;
    stops =
        inr (elim e.stops [
          | inl same ↦ let next : r + 1 ≡ mid = omega arith in rw next p
          | inr q ↦ q
        ]);
  }

  bisect-IsEdge :
      (fuel lo hi : ℕ) → lo ≤ hi → hi - lo ≤ fuel → IsEdge fits lo hi (bisect fits fuel lo hi)
  bisect-IsEdge zero lo hi h f =
      unfold bisect in
      record { low = omega arith; high = omega arith; passes = inl refl; stops = inl (omega arith) }
  bisect-IsEdge (suc fuel) lo hi h f = elim (Bool-cases (ltb lo hi)) [
    | inr done ↦ rw (bisect_done fuel lo hi done) (record {
      low = omega arith;
      high = omega arith;
      passes = inl refl;
      stops = inl (ground arith);
    })
    | inl more ↦
        let lt : lo < hi = ground arith in
        elim (Bool-cases (fits ((lo + hi + 1) / 2))) [
          | inl p ↦ rw (bisect_up fuel lo hi more p) (
              IsEdge-up lo hi ((lo + hi + 1) / 2) _ (omega arith) p
                (bisect-IsEdge fuel ((lo + hi + 1) / 2) hi (omega arith) (omega arith)))
          | inr q ↦ rw (bisect_down fuel lo hi more q) (
              IsEdge-down lo hi ((lo + hi + 1) / 2) _ (omega arith) (omega arith) q
                (bisect-IsEdge fuel lo ((lo + hi + 1) / 2 - 1) (omega arith) (omega arith)))
        ]
  ]

  pub longest-IsEdge : (hi : ℕ) → IsEdge fits 0 hi (longest fits hi)
  unfolding longest
  longest-IsEdge hi = bisect-IsEdge hi 0 hi (omega arith) (omega arith)

  -- The numbers that pass the test are an initial range.
  abbrev pub IsDownward : Type 0
  IsDownward = (k n : ℕ) → k ≤ n → fits n ≡ true → fits k ≡ true

  -- Then every number of the range that passes is at most the one found.
  pub le-longest : IsDownward → (hi n : ℕ) → n ≤ hi → fits n ≡ true → n ≤ longest fits hi
  le-longest down hi n h p =
      let e = longest-IsEdge hi in
      elim e.stops [
        | inl top ↦ omega arith
        | inr q ↦ elim (Bool-cases (leb n (longest fits hi))) [
          | inl small ↦ leb→le _ _ small
          | inr big ↦
              let over = down (longest fits hi + 1) n (ground arith) p in absurd (ground arith)
        ]
      ]
