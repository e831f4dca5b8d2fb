-- ===== src/Stats/Sorting.antt =====
-- Sorting keeps the samples and puts them in order.
use socket_tester.Base.{
  ℕ, zero, suc, ◌≤◌, ◌<◌, ◌≡◌, refl, Bool, true, some, List, [], ◌∷◌, length, get_elem?, count, All,
  leb, ltb, arith,
}
use socket_tester.Stats.{insert_sorted, sort}

abbrev pub IsSorted : List ℕ → Type 0
IsSorted [] = Unit {0}
IsSorted (x ∷ xs) = All (λ y. x ≤ y) xs × IsSorted xs

All-insert_sorted :
    (b x : ℕ) (ys : List ℕ) → b ≤ x → All (λ y. b ≤ y) ys → All (λ y. b ≤ y) (insert_sorted x ys)
unfolding insert_sorted
All-insert_sorted b x [] h k = (h, tt)
All-insert_sorted b x (y ∷ ys) h (p, k) = ground (arith, All-insert_sorted b x ys h k)

All-le_trans : (a b : ℕ) (ys : List ℕ) → a ≤ b → All (λ y. b ≤ y) ys → All (λ y. a ≤ y) ys
All-le_trans a b [] h k = tt
All-le_trans a b (y ∷ ys) h (p, k) = (omega arith, All-le_trans a b ys h k)

insert_sorted-IsSorted : (x : ℕ) (ys : List ℕ) → IsSorted ys → IsSorted (insert_sorted x ys)
unfolding insert_sorted
insert_sorted-IsSorted x [] s = (tt, tt)
insert_sorted-IsSorted x (y ∷ ys) (p, s) =
    ground (arith, insert_sorted-IsSorted x ys s, All-insert_sorted y x ys, All-le_trans x y ys)

pub sort-IsSorted : (xs : List ℕ) → IsSorted (sort xs)
unfolding sort
sort-IsSorted [] = tt
sort-IsSorted (x ∷ xs) = insert_sorted-IsSorted x (sort xs) (sort-IsSorted xs)

count-insert_sorted :
    (p : ℕ → Bool) (x : ℕ) (ys : List ℕ) → count p (insert_sorted x ys) ≡ count p (x ∷ ys)
unfolding insert_sorted
count-insert_sorted p x [] = refl
count-insert_sorted p x (y ∷ ys) = ground (arith, count-insert_sorted p x ys)

pub count-sort : (p : ℕ → Bool) (xs : List ℕ) → count p (sort xs) ≡ count p xs
unfolding sort
count-sort p [] = refl
count-sort p (x ∷ xs) = omega (arith, count-insert_sorted p x (sort xs), count-sort p xs)

count_all : (xs : List ℕ) → count (λ x. true) xs ≡ length xs
count_all [] = refl
count_all (x ∷ xs) = omega (arith, count_all xs)

pub length-sort : (xs : List ℕ) → length (sort xs) ≡ length xs
length-sort xs = omega (arith, count_all (sort xs), count_all xs, count-sort (λ x. true) xs)

count_none : (v : ℕ) (xs : List ℕ) → All (λ y. v ≤ y) xs → count (λ x. ltb x v) xs ≡ 0
count_none v [] h = refl
count_none v (x ∷ xs) (p, h) = ground (arith, count_none v xs h)

All-get_elem? :
    (b : ℕ) (xs : List ℕ) (i v : ℕ) → All (λ y. b ≤ y) xs → get_elem? xs i ≡ some v → b ≤ v
All-get_elem? b [] i v h e = cc
All-get_elem? b (x ∷ xs) zero v (p, h) e = ground arith
All-get_elem? b (x ∷ xs) (suc i) v (p, h) e = All-get_elem? b xs i v h e

-- In a sorted list, at most i values lie below the one at index i, and more than i are up to it.
pub count_below :
    (xs : List ℕ) (i v : ℕ)
    → IsSorted xs
    → get_elem? xs i ≡ some v
    → (count (λ x. ltb x v) xs ≤ i) × (i < count (λ x. leb x v) xs)
count_below [] i v s e = cc
count_below (x ∷ xs) zero v (p, s) e = ground (arith, count_none v xs)
count_below (x ∷ xs) (suc i) v (p, s) e =
    ground (arith, count_below xs i v s e, All-get_elem? x xs i v p e)

-- Values at later indices are larger.
pub get_elem?_mono :
    (xs : List ℕ) (i j v w : ℕ)
    → IsSorted xs
    → i ≤ j
    → get_elem? xs i ≡ some v
    → get_elem? xs j ≡ some w
    → v ≤ w
get_elem?_mono [] i j v w s h e f = cc
get_elem?_mono (x ∷ xs) zero zero v w s h e f = ground arith
get_elem?_mono (x ∷ xs) zero (suc j) v w (p, s) h e f = ground (arith, All-get_elem? x xs j w p f)
get_elem?_mono (x ∷ xs) (suc i) zero v w s h e f = absurd (omega arith)
get_elem?_mono (x ∷ xs) (suc i) (suc j) v w (p, s) h e f =
    get_elem?_mono xs i j v w s (omega arith) e f

pub get_elem?_defined : (xs : List ℕ) (i : ℕ) → i < length xs → (v : ℕ) × (get_elem? xs i ≡ some v)
get_elem?_defined [] i h = elim h [ ]
get_elem?_defined (x ∷ xs) zero h = (x, refl)
get_elem?_defined (x ∷ xs) (suc i) h = get_elem?_defined xs i (omega arith)
