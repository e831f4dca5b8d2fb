-- ===== src/Client/Series/Windows/Buckets.antt =====
-- A window of buckets: strictly ascending times within 60 of one another.
use socket_tester.Base.{
  ℕ, suc, ◌+◌, ◌-◌, ◌≤◌, ◌≡◌, Bool, List, [], ◌∷◌, filter, last?, length, ltb, arith, Option-cases,
}
use socket_tester.Client.Series.{recent, into_last}

module _ {B : Type 0} (time : B → ℕ) where
  -- Times that ascend strictly from `lo` to `hi` at most.
  abbrev pub Within : ℕ → ℕ → List B → Type 0
  Within lo hi [] = Unit {0}
  Within lo hi (b ∷ bs) = (lo ≤ time b) × (time b ≤ hi) × Within (suc (time b)) hi bs

  pub Within-length : (lo hi : ℕ) (bs : List B) → Within lo hi bs → length bs ≤ suc hi - lo
  Within-length lo hi [] h = omega arith
  Within-length lo hi (b ∷ bs) (l, u, h) = omega (arith, Within-length (suc (time b)) hi bs h)

  pub Within-mono :
      (lo lo' hi hi' : ℕ) (bs : List B) → lo' ≤ lo → hi ≤ hi' → Within lo hi bs → Within lo' hi' bs
  Within-mono lo lo' hi hi' [] p q h = tt
  Within-mono lo lo' hi hi' (b ∷ bs) p q (l, u, h) = (
    omega arith,
    omega arith,
    Within-mono (suc (time b)) (suc (time b)) hi hi' bs (omega arith) q h,
  )

  pub Within-filter :
      (p : B → Bool) (lo hi : ℕ) (bs : List B) → Within lo hi bs → Within lo hi (filter p bs)
  Within-filter p lo hi [] h = tt
  Within-filter p lo hi (b ∷ bs) (l, u, h) = ground (
    arith,
    Within-filter p (suc (time b)) hi bs h,
    Within-mono (suc (time b)) lo hi hi (filter p bs) (omega arith) (omega arith),
  )

  pub Within-recent :
      (now lo hi : ℕ) (bs : List B) → Within lo hi bs → Within (now - 59) hi (recent time now bs)
  Within-recent now lo hi [] h = tt
  Within-recent now lo hi (b ∷ bs) (l, u, h) = ground (
    arith,
    Within-recent now (suc (time b)) hi bs h,
    Within-filter (λ x. ltb now (time x + 60)) (suc (time b)) hi bs h,
  )

  -- The last bucket is of `now`, or a new one is later than all.
  pub Within-into_last :
      (now lo : ℕ) (change : B → B) (new : B) (bs : List B)
      → lo ≤ now
      → time new ≡ now
      → ((b : B) → time (change b) ≡ time b)
      → Within lo now bs
      → Within lo now (into_last time now change new bs)
  Within-into_last now lo change new [] p e k h = (omega arith, omega arith, tt)
  Within-into_last now lo change new (b ∷ []) p e k (l, u, h) = ground (arith, k b)
  Within-into_last now lo change new (a ∷ b ∷ bs) p e k (l, u, h) = ground (
    arith,
    Within-into_last now (suc (time a)) change new (b ∷ bs) (omega arith) e k h,
    Option-cases (last? (b ∷ bs)),
  )

  pub Within-put :
      (now hi : ℕ) (change : B → B) (new : B) (bs : List B)
      → hi ≤ now
      → time new ≡ now
      → ((b : B) → time (change b) ≡ time b)
      → Within (hi - 59) hi bs
      → Within (now - 59) now (into_last time now change new (recent time now bs))
  Within-put now hi change new bs p e k h =
      Within-into_last now (now - 59) change new (recent time now bs) (omega arith) e k (
        Within-mono (now - 59) (now - 59) hi now (recent time now bs) (omega arith) p
          (Within-recent now (hi - 59) hi bs h))

  -- At most 60 buckets, of strictly ascending times that lie within 60 of one another and are at
  -- most `now`.
  abbrev pub IsWindow : ℕ → List B → Type 0
  IsWindow now bs = (hi : ℕ) × (hi ≤ now) × (length bs ≤ 60) × Within (hi - 59) hi bs

  pub IsWindow-nil : (now : ℕ) → IsWindow now []
  IsWindow-nil now = (0, omega arith, omega arith, tt)

  pub IsWindow-mono :
      (now later : ℕ) (bs : List B) → now ≤ later → IsWindow now bs → IsWindow later bs
  IsWindow-mono now later bs p (hi, le, few, h) = (hi, omega arith, few, h)

  pub IsWindow-put :
      (now : ℕ) (change : B → B) (new : B) (bs : List B)
      → time new ≡ now
      → ((b : B) → time (change b) ≡ time b)
      → IsWindow now bs
      → IsWindow now (into_last time now change new (recent time now bs))
  IsWindow-put now change new bs e k (hi, le, few, h) =
      let put = Within-put now hi change new bs le e k h in
      (now, omega arith, omega (arith, Within-length (now - 59) now _ put), put)
