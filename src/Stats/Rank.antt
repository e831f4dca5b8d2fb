-- ===== src/Stats/Rank.antt =====
-- src/stats/stats.service.ts: the rank of a percentile, `Math.ceil((p / 100) * n)`, in the double
-- precision in which it is computed. A double has 53 bits; the nearest one is taken, and of two
-- nearest the even one.
pub mod Rounding
use socket_tester.Base.{ℕ, zero, suc, ◌+◌, ◌-◌, ◌*◌, ◌/◌, ◌%◌, if◌then◌else◌, ltb, leb}

-- `a / b` rounded to the nearest whole number, of two to the even one.
unfoldable pub nearest : ℕ → ℕ → ℕ
nearest a b =
    let twice = 2 * (a % b) in
    if ltb twice b then a / b else if ltb b twice then a / b + 1 else a / b + a / b % 2

-- The power of 2, from `unit` on, that makes p / 100 times it a number of 53 bits.
unfoldable pub unit_of : ℕ → ℕ → ℕ → ℕ
unit_of zero p unit = unit
unit_of (suc fuel) p unit =
    let rest = unit_of fuel p (2 * unit) in
    if leb (100 * 4503599627370496) (p * unit) then unit else rest

-- The power of 2, from `step` on, that is the distance of doubles at `x`.
unfoldable pub spacing : ℕ → ℕ → ℕ → ℕ
spacing zero x step = step
spacing (suc fuel) x step =
    let rest = spacing fuel x (2 * step) in if ltb x (9007199254740992 * step) then step else rest

-- `(p / 100) * n` is `product p n / unit p`, each operation rounded. 60 doublings are enough for p
-- from 1 on, and n of them for the product, as p / 100 has 53 bits.
unfoldable pub unit : ℕ → ℕ
unfolding unit_of
unit p = unit_of 60 p 1

unfoldable pub product : ℕ → ℕ → ℕ
unfolding nearest spacing unit
product p n =
    let exact = nearest (p * unit p) 100 * n in
    let step = spacing n exact 1 in nearest exact step * step

unfoldable pub rank : ℕ → ℕ → ℕ
unfolding product unit
rank p n = (product p n + unit p - 1) / unit p
