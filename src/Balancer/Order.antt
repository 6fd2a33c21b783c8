-- ===== src/Balancer/Order.antt =====
-- The ring of lib/load_balancer.h in order, and what `lower_bound` finds in it.
use blink_db.Base.{
  ℕ, ◌≤◌, ◌<◌, List, [], ◌∷◌, none, some, ltb, leb, ◌==◌, ==_iff, ◌≡◌, refl, ◌⊎◌, inl, inr,
  Bool-cases, arith, All, subst,
}
use blink_db.Balancer.{ring_insert, lower_bound, begin, nearest}

-- A number of the ring; a ring in order.
abbrev pub In : ℕ → List ℕ → Type 0
In x [] = x < 0
In x (y ∷ ys) = (x ≡ y) ⊎ In x ys

abbrev Above : ℕ → List ℕ → Type 0
Above x ring = All (λ y. x < y) ring

abbrev pub Sorted : List ℕ → Type 0
Sorted [] = Unit
Sorted (y ∷ ys) = Above y ys × Sorted ys

In-Above : (x y : ℕ) (ys : List ℕ) → In x ys → Above y ys → y < x
In-Above x y [] h above = absurd (omega (arith, h))
In-Above x y (z ∷ ys) (inl e) above = omega (arith, e, above.0)
In-Above x y (z ∷ ys) (inr h) above = In-Above x y ys h above.1

-- x is the first number of the ring from h on, or the first of all where there is none.
abbrev pub Chosen : ℕ → ℕ → List ℕ → Type 0
Chosen h x ring =
    ((h ≤ x) × ((y : ℕ) → In y ring → h ≤ y → x ≤ y))
    ⊎ (((y : ℕ) → In y ring → y < h) × ((y : ℕ) → In y ring → x ≤ y))

lower_bound-In :
    (h : ℕ) (ring : List ℕ)
    → Sorted ring
    → ((lower_bound h ring ≡ none) × ((y : ℕ) → In y ring → y < h))
      ⊎ ((x : ℕ) × (lower_bound h ring ≡ some x)
          × In x ring
          × (h ≤ x)
          × ((y : ℕ) → In y ring → h ≤ y → x ≤ y))
unfolding lower_bound
lower_bound-In h [] sorted = inl (refl, λ y there. absurd (omega (arith, there)))
lower_bound-In h (z ∷ ring) sorted = elim (Bool-cases (leb h z)) [
  | inl e ↦ inr (
    z,
    rw e refl,
    inl refl,
    ground (arith, e),
    λ y there from. elim there [
      | inl same ↦ omega (arith, same)
      | inr later ↦ omega (arith, In-Above y z ring later sorted.0)
    ],
  )
  | inr e ↦ elim (lower_bound-In h ring sorted.1) [
    | inl (off, below) ↦ inl (
      rw e off,
      λ y there. elim there [ inl same ↦ ground (arith, same, e) | inr later ↦ below y later ],
    )
    | inr (x, found, there, from, least) ↦ inr (
      x,
      rw e found,
      inr there,
      from,
      λ y at above. elim at [
        | inl same ↦ absurd (ground (arith, same, e, above))
        | inr later ↦ least y later above
      ],
    )
  ]
]

nearest-Chosen :
    (h z : ℕ) (ring : List ℕ)
    → Sorted (z ∷ ring)
    → (x : ℕ) × (nearest h (z ∷ ring) ≡ some x) × In x (z ∷ ring) × Chosen h x (z ∷ ring)
unfolding nearest begin
nearest-Chosen h z ring sorted = elim (lower_bound-In h (z ∷ ring) sorted) [
  | inr (x, found, there, from, least) ↦ (x, rw (nearest, found) refl, there, inl (from, least))
  | inl (off, below) ↦ (
    z,
    rw (nearest, off) refl,
    inl refl,
    inr (
      below,
      λ y there. elim there [
        | inl same ↦ omega (arith, same)
        | inr later ↦ omega (arith, In-Above y z ring later sorted.0)
      ],
    ),
  )
]

pub nearest-found :
    (h y : ℕ) (ring : List ℕ)
    → Sorted ring
    → In y ring
    → (x : ℕ) × (nearest h ring ≡ some x) × In x ring × Chosen h x ring
nearest-found h y [] sorted there = absurd (omega (arith, there))
nearest-found h y (z ∷ ring) sorted there = nearest-Chosen h z ring sorted

Above-ring_insert : (x y : ℕ) (ring : List ℕ) → y < x → Above y ring → Above y (ring_insert x ring)
unfolding ring_insert
Above-ring_insert x y [] less above = (less, tt)
Above-ring_insert x y (z ∷ ring) less above = elim (Bool-cases (ltb x z)) [
  | inl e ↦ rw e (less, above)
  | inr e ↦ elim (Bool-cases (x == z)) [
    | inl same ↦ rw (e, same) above
    | inr other ↦ rw (e, other) (above.0, Above-ring_insert x y ring less above.1)
  ]
]

Above-trans : (x y : ℕ) (ring : List ℕ) → x < y → Above y ring → Above x ring
Above-trans x y [] less above = tt
Above-trans x y (z ∷ ring) less above =
    (omega (arith, less, above.0), Above-trans x y ring less above.1)

pub Sorted-ring_insert : (x : ℕ) (ring : List ℕ) → Sorted ring → Sorted (ring_insert x ring)
unfolding ring_insert
Sorted-ring_insert x [] sorted = (tt, tt)
Sorted-ring_insert x (z ∷ ring) sorted = elim (Bool-cases (ltb x z)) [
  | inl e ↦
      let less : x < z = ground (arith, e) in
      rw e ((less, Above-trans x z ring less sorted.0), sorted)
  | inr e ↦ elim (Bool-cases (x == z)) [
    | inl same ↦ rw (e, same) sorted
    | inr other ↦
        let more : z < x = ground (arith, e, other, ==_iff x z) in
        rw (e, other) (Above-ring_insert x z ring more sorted.0, Sorted-ring_insert x ring sorted.1)
  ]
]

-- What is in the ring with a number more.
pub In-ring_insert : (x y : ℕ) (ring : List ℕ) → In y (ring_insert x ring) → (y ≡ x) ⊎ In y ring
unfolding ring_insert
In-ring_insert x y [] there = there
In-ring_insert x y (z ∷ ring) there = elim (Bool-cases (ltb x z)) [
  | inl e ↦
      let whole : ring_insert x (z ∷ ring) ≡ x ∷ z ∷ ring = rw (ring_insert, e) refl in
      subst (In y) whole there
  | inr e ↦ elim (Bool-cases (x == z)) [
    | inl same ↦
        let whole : ring_insert x (z ∷ ring) ≡ z ∷ ring = rw (ring_insert, e, same) refl in
        inr (subst (In y) whole there)
    | inr other ↦
        let whole : ring_insert x (z ∷ ring) ≡ z ∷ ring_insert x ring =
          rw (ring_insert, e, other) refl in
        elim (subst (In y) whole there) [
          | inl here ↦ inr (inl here)
          | inr later ↦ elim (In-ring_insert x y ring later) [
            | inl new ↦ inl new
            | inr old ↦ inr (inr old)
          ]
        ]
  ]
]

pub In-inserted : (x : ℕ) (ring : List ℕ) → In x (ring_insert x ring)
unfolding ring_insert
In-inserted x [] = inl refl
In-inserted x (z ∷ ring) = elim (Bool-cases (ltb x z)) [
  | inl e ↦ rw e (inl refl)
  | inr e ↦ elim (Bool-cases (x == z)) [
    | inl same ↦ rw (e, same) (inl ((==_iff x z).0 same))
    | inr other ↦ rw (e, other) (inr (In-inserted x ring))
  ]
]

pub In-kept : (x y : ℕ) (ring : List ℕ) → In y ring → In y (ring_insert x ring)
unfolding ring_insert
In-kept x y [] there = inr there
In-kept x y (z ∷ ring) there = elim (Bool-cases (ltb x z)) [
  | inl e ↦ rw e (inr there)
  | inr e ↦ elim (Bool-cases (x == z)) [
    | inl same ↦ rw (e, same) there
    | inr other ↦
        rw (e, other)
          (elim there [ inl here ↦ inl here | inr later ↦ inr (In-kept x y ring later) ])
  ]
]
