-- ===== src/Stats/Percentiles.antt =====
-- Percentiles by nearest rank, and their place between minimum and maximum.
use mathlib.Core.Path.{subst, subst₂}
use mathlib.Core.Option.{some-injective}
use socket_tester.Session.{ConnectionSession, ConnectionStats, Sessions, get}
use socket_tester.Base.{
  ap, sym, ◌/◌, ◌∙◌, ◌⊎◌, inl, inr, Text, Bool, ℕ, zero, suc, ◌+◌, ◌*◌, ◌-◌, ◌≤◌, ◌<◌, ◌≡◌, refl,
  some, List, [], ◌∷◌, length, get_elem?, count, All, leb, ltb, arith, min, max, ◌≢◌,
}
use socket_tester.Stats.{
  insert_sorted, EnhancedStats, enhance, get_enhanced_stats, sort, compute_percentile, min_of,
  max_of,
}
use socket_tester.Stats.Rank.{rank}
use socket_tester.Stats.Rank.Rounding.{rank_order, rank_exact}
use socket_tester.Stats.Sorting.{
  IsSorted, sort-IsSorted, count-sort, length-sort, count_below, get_elem?_mono, get_elem?_defined,
}

quotient_bounds :
    (p n : ℕ)
    → 0 < p
    → p ≤ 100
    → 0 < n
    → let r = (p * n + 99) / 100 in (0 < r) × (r ≤ n) × (p * n ≤ 100 * r) × (100 * r < p * n + 100)
quotient_bounds p n h k m = grind arith

rank_bounds :
    (p n : ℕ)
    → (p ≡ 95) ⊎ (p ≡ 99)
    → n ≤ 100
    → 0 < n
    → (0 < rank p n) × (rank p n ≤ n) × (p * n ≤ 100 * rank p n) × (100 * rank p n < p * n + 100)
rank_bounds p n q k m =
    let small : (0 < p) × (p ≤ 100) = elim q [
      | inl is_95 ↦ (omega (arith, is_95), omega (arith, is_95))
      | inr is_99 ↦ (omega (arith, is_99), omega (arith, is_99))
    ] in
    subst (λ r. (0 < r) × (r ≤ n) × (p * n ≤ 100 * r) × (100 * r < p * n + 100))
      (sym (rank_exact p n q k)) (quotient_bounds p n small.0 small.1 m)

module _ (p v : ℕ) (xs : List ℕ) where
  -- What makes v the percentile by nearest rank.
  abbrev pub HasRank : Type 0
  HasRank =
      (100 * count (λ x. ltb x v) xs < p * length xs)
      × (p * length xs ≤ 100 * count (λ x. leb x v) xs)

  HasRank_sorted :
      IsSorted xs
      → (p ≡ 95) ⊎ (p ≡ 99)
      → length xs ≤ 100
      → 0 < length xs
      → get_elem? xs (rank p (length xs) - 1) ≡ some v
      → HasRank
  HasRank_sorted s h k m e =
      let b = rank_bounds p (length xs) h k m in
      let c = count_below xs (rank p (length xs) - 1) v s e in (omega arith, omega arith)

  HasRank_same :
      (ys : List ℕ)
      → length ys ≡ length xs
      → ((q : ℕ → Bool) → count q ys ≡ count q xs)
      → (100 * count (λ x. ltb x v) ys < p * length ys)
      → (p * length ys ≤ 100 * count (λ x. leb x v) ys)
      → HasRank
  HasRank_same ys l c a b = (
    subst₂ (λ n m. 100 * n < p * m) (c (λ x. ltb x v)) l a,
    subst₂ (λ n m. p * m ≤ 100 * n) (c (λ x. leb x v)) l b,
  )

-- The 95th and the 99th percentile of 1 to 100 samples, which is as many as a session keeps, exist:
-- fewer than 95, or 99, percent of the samples are below it, and at least as many are at or below it.
pub compute_percentile_rank :
    (xs : List ℕ) (p : ℕ)
    → (p ≡ 95) ⊎ (p ≡ 99)
    → length xs ≤ 100
    → xs ≢ []
    → (v : ℕ) × (compute_percentile xs p ≡ some v) × HasRank p v xs
unfolding compute_percentile
compute_percentile_rank [] p h k ne = absurd (ne refl)
compute_percentile_rank (x ∷ xs) p h k ne =
    let ys = sort (x ∷ xs) in
    let m : 0 < length ys = omega (arith, length-sort (x ∷ xs)) in
    let few : length ys ≤ 100 = omega (arith, length-sort (x ∷ xs)) in
    let b = rank_bounds p (length ys) h few m in
    let (v, e) = get_elem?_defined ys (rank p (length ys) - 1) (omega arith) in
    let (below, up_to) = HasRank_sorted p v ys (sort-IsSorted (x ∷ xs)) h few m e in
    (
      v,
      e,
      HasRank_same p v (x ∷ xs) ys (length-sort (x ∷ xs)) (λ q. count-sort q (x ∷ xs)) below up_to,
    )

module _ (P : ℕ → Type 0) where
  All-insert_sorted : (x : ℕ) (ys : List ℕ) → P x → All P ys → All P (insert_sorted x ys)
  unfolding insert_sorted
  All-insert_sorted x [] h k = (h, tt)
  All-insert_sorted x (y ∷ ys) h (p, k) = ground (arith, All-insert_sorted x ys h k)

  All-sort : (xs : List ℕ) → All P xs → All P (sort xs)
  unfolding sort
  All-sort [] h = tt
  All-sort (x ∷ xs) (p, h) = All-insert_sorted x (sort xs) p (All-sort xs h)

  All-get_elem? : (xs : List ℕ) (i v : ℕ) → All P xs → get_elem? xs i ≡ some v → P v
  All-get_elem? [] i v h e = cc
  All-get_elem? (x ∷ xs) zero v (p, h) e = subst P (some-injective _ _ e) p
  All-get_elem? (x ∷ xs) (suc i) v (p, h) e = All-get_elem? xs i v h e

  All-mono : (Q : ℕ → Type 0) (xs : List ℕ) → ((x : ℕ) → P x → Q x) → All P xs → All Q xs
  All-mono Q [] f h = tt
  All-mono Q (x ∷ xs) f (p, h) = (f x p, All-mono Q xs f h)

min_of_lem :
    (x : ℕ) (xs : List ℕ) → (m : ℕ) × (min_of (x ∷ xs) ≡ some m) × All (λ y. m ≤ y) (x ∷ xs)
unfolding min_of
min_of_lem x [] = (x, refl, omega arith)
min_of_lem x (y ∷ ys) =
    let (m, e, h) = min_of_lem y ys in
    (
      min x m,
      rw (e, min_of),
      (omega arith, All-mono (λ z. m ≤ z) (λ z. min x m ≤ z) (y ∷ ys) (λ z k. omega arith) h),
    )

max_of_lem :
    (x : ℕ) (xs : List ℕ) → (m : ℕ) × (max_of (x ∷ xs) ≡ some m) × All (λ y. y ≤ m) (x ∷ xs)
unfolding max_of
max_of_lem x [] = (x, refl, omega arith)
max_of_lem x (y ∷ ys) =
    let (m, e, h) = max_of_lem y ys in
    (
      max x m,
      rw (e, max_of),
      (omega arith, All-mono (λ z. z ≤ m) (λ z. z ≤ max x m) (y ∷ ys) (λ z k. omega arith) h),
    )

-- The four latency figures of a connection are defined and in order.
pub record AreOrdered (t : EnhancedStats) : Type 0 where
  pub lowest : ℕ
  pub p95 : ℕ
  pub p99 : ℕ
  pub highest : ℕ
  pub is_min : t.latency_min ≡ some lowest
  pub is_p95 : t.latency_p95 ≡ some p95
  pub is_p99 : t.latency_p99 ≡ some p99
  pub is_max : t.latency_max ≡ some highest
  pub min-p95 : lowest ≤ p95
  pub p95-p99 : p95 ≤ p99
  pub p99-max : p99 ≤ highest

AreOrdered-samples :
    (stats : ConnectionStats) (now x : ℕ) (xs : List ℕ)
    → stats.latency_samples ≡ x ∷ xs
    → AreOrdered (enhance stats now)
unfolding compute_percentile
AreOrdered-samples stats now x xs e =
    let ys = sort (x ∷ xs) in
    let n = length ys in
    let m : 0 < n = omega (arith, length-sort (x ∷ xs)) in
    let (a, c, b) = rank_order n m in
    let (lo, lo_e, above) = min_of_lem x xs in
    let (hi, hi_e, under) = max_of_lem x xs in
    let (v, v_e) = get_elem?_defined ys (rank 95 n - 1) (omega arith) in
    let (w, w_e) = get_elem?_defined ys (rank 99 n - 1) (omega arith) in
    record {
      lowest = lo;
      p95 = v;
      p99 = w;
      highest = hi;
      is_min = ap min_of e ∙ lo_e;
      is_p95 = ap (λ l. compute_percentile l 95) e ∙ v_e;
      is_p99 = ap (λ l. compute_percentile l 99) e ∙ w_e;
      is_max = ap max_of e ∙ hi_e;
      min-p95 =
          All-get_elem? (λ y. lo ≤ y) ys (rank 95 n - 1) v (All-sort (λ y. lo ≤ y) (x ∷ xs) above)
            v_e;
      p95-p99 =
          get_elem?_mono ys (rank 95 n - 1) (rank 99 n - 1) v w (sort-IsSorted (x ∷ xs))
            (omega arith) v_e w_e;
      p99-max =
          All-get_elem? (λ y. y ≤ hi) ys (rank 99 n - 1) w (All-sort (λ y. y ≤ hi) (x ∷ xs) under)
            w_e;
    }

-- For a session with latency samples the statistics give a minimum, a 95th and a 99th percentile and
-- a maximum, and these four are in order.
pub get_enhanced_stats-AreOrdered :
    (id : Text) (now : ℕ) (m : Sessions) (s : ConnectionSession) (t : EnhancedStats)
    → get id m ≡ some s
    → s.stats.latency_samples ≢ []
    → get_enhanced_stats id now m ≡ some t
    → AreOrdered t
unfolding get_enhanced_stats
get_enhanced_stats-AreOrdered id now m s t e ne h =
    subst AreOrdered (some-injective _ _ (rw (e, get_enhanced_stats) at h))
      (go s.stats.latency_samples refl)
  where
    go : (l : List ℕ) → s.stats.latency_samples ≡ l → AreOrdered (enhance s.stats now)
    go [] q = absurd (ne q)
    go (x ∷ xs) q = AreOrdered-samples s.stats now x xs q
