-- ===== src/Base/Maps.antt =====
-- A JavaScript `Map` or record with string keys: its entries in the order of insertion.
use mathlib.Core.Path.{◌≡◌, refl}
use mathlib.Core.Bool.{Bool}
use mathlib.Core.Option.{Option, none, some}
use mathlib.Core.Option
use mathlib.Core.List.{List, [], ◌∷◌, ◌++◌, map}
use native.Mathlib.Omega.{arith}
use socket_tester.Base.Tests.{if◌then◌else◌, is_some}
use socket_tester.Base.Lists.{All}
use socket_tester.Base.Strings.{Text, text_eq, text_eq_iff, text_eq_refl}

abbrev pub Map {ℓ} : Type ℓ → Type ℓ
Map V = List (Text × V)

module _ {ℓ} {V : Type ℓ} where
  -- `m.get(k)`
  unfoldable pub lookup : Text → Map V → Option V
  lookup k [] = none
  lookup k ((j, v) ∷ m) = let rest = lookup k m in if text_eq j k then some v else rest

  -- `m.has(k)`
  abbrev pub has : Text → Map V → Bool
  has k m = is_some (lookup k m)

  -- `m.set(k, v)`: an old key keeps its place.
  unfoldable pub insert : Text → V → Map V → Map V
  insert k v [] = (k, v) ∷ []
  insert k v ((j, w) ∷ m) =
      let rest = insert k v m in if text_eq j k then (j, v) ∷ m else (j, w) ∷ rest

  -- `m.delete(k)`
  unfoldable pub delete : Text → Map V → Map V
  delete k [] = []
  delete k ((j, w) ∷ m) = let rest = delete k m in if text_eq j k then rest else (j, w) ∷ rest

  -- `const v = m.get(k); if (v) { …change v in place… }`
  unfoldable pub modify : Text → (V → V) → Map V → Map V
  modify k f [] = []
  modify k f ((j, w) ∷ m) =
      let rest = modify k f m in if text_eq j k then (j, f w) ∷ m else (j, w) ∷ rest

  abbrev pub values : Map V → List V
  values = map (λ e. e.1)

  abbrev pub keys : Map V → List Text
  keys = map (λ e. e.0)

  pub lookup-insert :
      (k j : Text) (v : V) (m : Map V)
      → lookup j (insert k v m) ≡ (if text_eq k j then some v else lookup j m)
  unfolding lookup insert
  lookup-insert k j v [] = refl
  lookup-insert k j v ((i, w) ∷ m) =
      ground (arith, text_eq_iff k j, text_eq_iff i k, text_eq_iff i j, lookup-insert k j v m)

  pub lookup-delete :
      (k j : Text) (m : Map V) → lookup j (delete k m) ≡ (if text_eq k j then none else lookup j m)
  unfolding lookup delete
  lookup-delete k j [] = ground arith
  lookup-delete k j ((i, w) ∷ m) =
      ground (arith, text_eq_iff k j, text_eq_iff i k, text_eq_iff i j, lookup-delete k j m)

  pub lookup-modify :
      (k j : Text) (f : V → V) (m : Map V)
      → lookup j (modify k f m) ≡ (if text_eq k j then Option.map f (lookup j m) else lookup j m)
  unfolding lookup modify
  lookup-modify k j f [] = ground arith
  lookup-modify k j f ((i, w) ∷ m) =
      ground (arith, text_eq_iff k j, text_eq_iff i k, text_eq_iff i j, lookup-modify k j f m)

  pub lookup-insert_self : (k : Text) (v : V) (m : Map V) → lookup k (insert k v m) ≡ some v
  lookup-insert_self k v m = rw (lookup-insert, text_eq_refl k)

  pub lookup-delete_self : (k : Text) (m : Map V) → lookup k (delete k m) ≡ none
  lookup-delete_self k m = rw (lookup-delete, text_eq_refl k)

  -- A new key goes to the end.
  pub insert_new :
      (k : Text) (v : V) (m : Map V) → lookup k m ≡ none → insert k v m ≡ m ++ (k, v) ∷ []
  unfolding lookup insert
  insert_new k v [] h = refl
  insert_new k v ((j, w) ∷ m) h = ground (arith, insert_new k v m)

  pub modify_absent : (k : Text) (f : V → V) (m : Map V) → lookup k m ≡ none → modify k f m ≡ m
  unfolding lookup modify
  modify_absent k f [] h = refl
  modify_absent k f ((j, w) ∷ m) h = ground (arith, modify_absent k f m)

  pub keys-modify : (k : Text) (f : V → V) (m : Map V) → keys (modify k f m) ≡ keys m
  unfolding modify
  keys-modify k f [] = refl
  keys-modify k f ((j, w) ∷ m) = ground (arith, keys-modify k f m)

  -- What holds of every value.
  pub All-modify {κ} :
      (P : V → Type κ) (k : Text) (f : V → V) (m : Map V)
      → ((v : V) → P v → P (f v))
      → All P (values m)
      → All P (values (modify k f m))
  unfolding modify
  All-modify P k f [] keep h = tt
  All-modify P k f ((j, w) ∷ m) keep (p, h) = ground (arith, keep w p, All-modify P k f m keep h)

  pub All-insert {κ} :
      (P : V → Type κ) (k : Text) (v : V) (m : Map V)
      → P v
      → All P (values m)
      → All P (values (insert k v m))
  unfolding insert
  All-insert P k v [] p h = (p, tt)
  All-insert P k v ((j, w) ∷ m) p (q, h) = ground (arith, All-insert P k v m p h)

  pub All-delete {κ} :
      (P : V → Type κ) (k : Text) (m : Map V) → All P (values m) → All P (values (delete k m))
  unfolding delete
  All-delete P k [] h = tt
  All-delete P k ((j, w) ∷ m) (q, h) = ground (arith, All-delete P k m h)

  pub All-lookup {κ} :
      (P : V → Type κ) (k : Text) (m : Map V) (v : V) → All P (values m) → lookup k m ≡ some v → P v
  unfolding lookup
  All-lookup P k [] v h e = cc
  All-lookup P k ((j, w) ∷ m) v (p, h) e = ground (arith, All-lookup P k m v h)

  pub insert-insert : (k : Text) (v w : V) (m : Map V) → insert k v (insert k w m) ≡ insert k v m
  unfolding insert
  insert-insert k v w [] = ground (arith, text_eq_refl k)
  insert-insert k v w ((j, u) ∷ m) = ground (arith, insert-insert k v w m)

  pub lookup-modify_self :
      (k : Text) (f : V → V) (m : Map V) (v : V)
      → lookup k m ≡ some v
      → lookup k (modify k f m) ≡ some (f v)
  lookup-modify_self k f m v e = ground (arith, lookup-modify k k f m, text_eq_refl k)
