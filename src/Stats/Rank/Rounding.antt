-- ===== src/Stats/Rank/Rounding.antt =====
-- How far the rank in double precision is from the exact one.
use mathlib.Core.Path.{subst}
use socket_tester.Base.{
  ℕ, zero, suc, ◌+◌, ◌*◌, ◌/◌, ◌≤◌, ◌<◌, ◌≡◌, ◌⊎◌, inl, inr, refl, sym, Bool, true, ◌&&◌, ltb, ◌==◌,
  Bool-cases, arith,
}
use socket_tester.Stats.Rank.{nearest, unit_of, spacing, unit, product, rank}

nearest_bounds :
    (a b : ℕ) → 0 < b → (2 * (nearest a b * b) ≤ 2 * a + b) × (2 * a ≤ 2 * (nearest a b * b) + b)
unfolding nearest
nearest_bounds a b h = grind arith

spacing_bound :
    (fuel x step : ℕ)
    → 0 < step
    → (0 < spacing fuel x step)
      × ((spacing fuel x step ≡ step) ⊎ (9007199254740992 * spacing fuel x step ≤ 2 * x))
unfolding spacing
spacing_bound zero x step h = (h, inl refl)
spacing_bound (suc fuel) x step h = elim (Bool-cases (ltb x (9007199254740992 * step))) [
  | inl e ↦ rw e (h, inl refl)
  | inr e ↦
      let (positive, bound) = spacing_bound fuel x (2 * step) (omega arith) in
      rw e (positive, inr (elim bound [ inl same ↦ ground (arith, same, e) | inr less ↦ less ]))
]

-- Rounding to a double changes a number by one part in 2 ^ 53 at most.
IsNear : ℕ → ℕ → Type 0
IsNear x r =
    (9007199254740992 * r ≤ 9007199254740993 * x) × (9007199254740991 * x ≤ 9007199254740992 * r)

rounded-IsNear : (fuel x : ℕ) → IsNear x (nearest x (spacing fuel x 1) * spacing fuel x 1)
unfolding IsNear
rounded-IsNear fuel x =
    let (positive, bound) = spacing_bound fuel x 1 (omega arith) in
    let (above, below) = nearest_bounds x (spacing fuel x 1) positive in
    elim bound [
      | inl one ↦ (omega (arith, above, below, one), omega (arith, above, below, one))
      | inr less ↦ (omega (arith, above, below, less), omega (arith, above, below, less))
    ]

unit_95 : unit 95 ≡ 9007199254740992
unfolding unit unit_of
unit_95 = refl

unit_99 : unit 99 ≡ 9007199254740992
unfolding unit unit_of
unit_99 = refl

product_95 : (n : ℕ) → IsNear (8556839292003942 * n) (product 95 n)
unfolding product unit unit_of nearest
product_95 n = rounded-IsNear n (8556839292003942 * n)

product_99 : (n : ℕ) → IsNear (8917127262193582 * n) (product 99 n)
unfolding product unit unit_of nearest
product_99 n = rounded-IsNear n (8917127262193582 * n)

-- The two ranks that the service computes are those of samples, and in order.
pub rank_order : (n : ℕ) → 0 < n → (0 < rank 95 n) × (rank 95 n ≤ rank 99 n) × (rank 99 n ≤ n)
unfolding rank IsNear
rank_order n h =
    let a = product_95 n in
    let b = product_99 n in
    rw (unit_95, rank) (rw unit_99 (omega (arith, a), omega (arith, a, b), omega (arith, b)))

all_below : (ℕ → Bool) → ℕ → Bool
all_below f zero = true
all_below f (suc n) = let rest = all_below f n in rest && f n

all_below_at : (f : ℕ → Bool) (k n : ℕ) → n < k → all_below f k ≡ true → f n ≡ true
unfolding all_below
all_below_at f zero n h e = absurd (omega (arith, h))
all_below_at f (suc k) n h e = elim (Bool-cases (n == k)) [
  | inl same ↦ ground (arith, same, e)
  | inr other ↦ all_below_at f k n (ground (arith, other, h)) (ground (arith, e))
]

abbrev is_exact : ℕ → ℕ → Bool
is_exact p n = rank p n == (p * n + 99) / 100

exact_95 : all_below (is_exact 95) 101 ≡ true
unfolding all_below rank unit unit_of product nearest spacing
exact_95 = refl

exact_99 : all_below (is_exact 99) 101 ≡ true
unfolding all_below rank unit unit_of product nearest spacing
exact_99 = refl

of_is_exact : (a b : ℕ) → (a == b) ≡ true → a ≡ b
of_is_exact a b e = ground (arith, e)

-- For up to 100 samples these two ranks are exact.
pub rank_exact : (p n : ℕ) → (p ≡ 95) ⊎ (p ≡ 99) → n ≤ 100 → rank p n ≡ (p * n + 99) / 100
rank_exact p n (inl e) h =
    subst (λ q. rank q n ≡ (q * n + 99) / 100) (sym e)
      (of_is_exact _ _ (all_below_at (is_exact 95) 101 n (omega arith) exact_95))
rank_exact p n (inr e) h =
    subst (λ q. rank q n ≡ (q * n + 99) / 100) (sym e)
      (of_is_exact _ _ (all_below_at (is_exact 99) 101 n (omega arith) exact_99))
