-- ===== src/Balancer/Ring.antt =====
-- A server more in the ring of lib/load_balancer.h.
use blink_db.Base.{
  ℕ, List, [], ◌∷◌, some, ltb, leb, ◌==◌, Text, ◌≡◌, refl, ◌⊎◌, inl, inr, Bool-cases, Option-cases,
  ==_refl, ◌>>=◌,
}
use blink_db.Balancer.{
  ServerAdd, LoadBalancer, ring_insert, lower_bound, begin, server_at, nearest, hash_key,
  server_hash, add_server, get_server,
}

lower_bound-ring_insert :
    (h x : ℕ) (ring : List ℕ)
    → (lower_bound h (ring_insert x ring) ≡ some x)
      ⊎ (lower_bound h (ring_insert x ring) ≡ lower_bound h ring)
unfolding lower_bound ring_insert
lower_bound-ring_insert h x [] = elim (Bool-cases (leb h x)) [
  | inl e ↦ inl (rw e refl)
  | inr e ↦ inr (rw e refl)
]
lower_bound-ring_insert h x (y ∷ ys) = elim (Bool-cases (ltb x y)) [
  | inl less ↦ elim (Bool-cases (leb h x)) [
    | inl e ↦ inl (rw (less, lower_bound, e) refl)
    | inr e ↦ inr (rw (less, lower_bound, e) refl)
  ]
  | inr not_less ↦ elim (Bool-cases (x == y)) [
    | inl same ↦ inr (rw (not_less, same) refl)
    | inr other ↦ elim (Bool-cases (leb h y)) [
      | inl e ↦ inr (rw (not_less, other, lower_bound, e) refl)
      | inr e ↦ elim (lower_bound-ring_insert h x ys) [
        | inl here ↦ inl (rw (not_less, other, lower_bound, e) here)
        | inr there ↦ inr (rw (not_less, other, lower_bound, e) there)
      ]
    ]
  ]
]

begin-ring_insert :
    (x : ℕ) (ring : List ℕ)
    → (begin (ring_insert x ring) ≡ some x) ⊎ (begin (ring_insert x ring) ≡ begin ring)
unfolding begin ring_insert
begin-ring_insert x [] = inl refl
begin-ring_insert x (y ∷ ys) = elim (Bool-cases (ltb x y)) [
  | inl less ↦ inl (rw less refl)
  | inr not_less ↦ elim (Bool-cases (x == y)) [
    | inl same ↦ inr (rw (not_less, same) refl)
    | inr other ↦ inr (rw (not_less, other) refl)
  ]
]

nearest-ring_insert :
    (h x : ℕ) (ring : List ℕ)
    → (nearest h (ring_insert x ring) ≡ some x) ⊎ (nearest h (ring_insert x ring) ≡ nearest h ring)
unfolding nearest
nearest-ring_insert h x ring = elim (lower_bound-ring_insert h x ring) [
  | inl here ↦ inl (rw (nearest, here) refl)
  | inr same ↦ elim (Option-cases (lower_bound h ring)) [
    | inr (y, e) ↦ inr (rw (nearest, same, e) refl)
    | inl e ↦ elim (begin-ring_insert x ring) [
      | inl here ↦ inl (rw (nearest, same, e) here)
      | inr there ↦ inr (rw (nearest, same, e) there)
    ]
  ]
]

module _ (hash : Text → ℕ) where
  -- When a server is added, `getServer` gives the new server for a key, or the one that it gave before.
  pub get_server-add_server :
      (key : Text) (s : ServerAdd) (b : LoadBalancer)
      → (get_server hash key (add_server hash s b) ≡ some s)
        ⊎ (get_server hash key (add_server hash s b) ≡ get_server hash key b)
  unfolding get_server add_server server_at
  get_server-add_server key s b =
      let x = server_hash hash s in
      elim (nearest-ring_insert (hash_key hash key) x b.hash_ring) [
        | inl here ↦ inl (rw (here, ◌>>=◌, ==_refl x) refl)
        | inr same ↦ elim (Option-cases (nearest (hash_key hash key) b.hash_ring)) [
          | inl off ↦ inr (rw (same, off) refl)
          | inr (y, there) ↦ elim (Bool-cases (y == x)) [
            | inl equal ↦ inl (rw (same, there, ◌>>=◌, equal) refl)
            | inr other ↦ inr (rw (same, there, ◌>>=◌, other) refl)
          ]
        ]
      ]
