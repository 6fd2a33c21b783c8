-- ===== src/Balancer/Nearest.antt =====
-- Which server `getServer` of lib/load_balancer.h gives.
use blink_db.Base.{
  ℕ, ◌≤◌, ◌<◌, List, [], ◌∷◌, some, true, false, leb, ◌==◌, ==_iff, Text, ◌≡◌, refl, sym, ◌⊎◌, inl,
  inr, Bool-cases, arith, All,
}
use blink_db.Balancer.{
  ServerAdd, LoadBalancer, empty_balancer, server_at, hash_key, server_hash, add_server,
  add_servers, get_server,
}
use blink_db.Balancer.Order.{
  In, Sorted, nearest-found, Sorted-ring_insert, In-ring_insert, In-inserted, In-kept,
}

-- A server of a list.
abbrev pub Member : ServerAdd → List ServerAdd → Type 0
Member s [] = true ≡ false
Member s (t ∷ servers) = (s ≡ t) ⊎ Member s servers

members_of :
    (P : ServerAdd → Type 0) (servers : List ServerAdd)
    → ((s : ServerAdd) → Member s servers → P s)
    → All P servers
members_of P [] f = tt
members_of P (s ∷ servers) f = (f s (inl refl), members_of P servers (λ t there. f t (inr there)))

All-map :
    (P Q : ServerAdd → Type 0) (servers : List ServerAdd)
    → ((s : ServerAdd) → P s → Q s)
    → All P servers
    → All Q servers
All-map P Q [] f h = tt
All-map P Q (s ∷ servers) f h = (f s h.0, All-map P Q servers f h.1)

module _ (hash : Text → ℕ) where
  -- A ring in order whose numbers are the hashes of servers that have P.
  record Ringed (P : ServerAdd → Type 0) (b : LoadBalancer) : Type 0 where
    sorted : Sorted b.hash_ring
    known :
        (x : ℕ)
        → In x b.hash_ring
        → P (server_at x b.server_map) × (server_hash hash (server_at x b.server_map) ≡ x)

  add_server-Ringed :
      (P : ServerAdd → Type 0) (s : ServerAdd) (b : LoadBalancer)
      → P s
      → Ringed P b
      → Ringed P (add_server hash s b)
  unfolding add_server server_at
  add_server-Ringed P s b has r = record {
    sorted = Sorted-ring_insert (server_hash hash s) b.hash_ring r.sorted;
    known = λ x there. elim (Bool-cases (x == server_hash hash s)) [
      | inl same ↦ rw same (has, sym ((==_iff x (server_hash hash s)).0 same))
      | inr other ↦ elim (In-ring_insert (server_hash hash s) x b.hash_ring there) [
        | inl new ↦ absurd (ground (arith, new, other, ==_iff x (server_hash hash s)))
        | inr old ↦ rw other (r.known x old)
      ]
    ];
  }

  add_servers-Ringed :
      (P : ServerAdd → Type 0) (servers : List ServerAdd) (b : LoadBalancer)
      → All P servers
      → Ringed P b
      → Ringed P (add_servers hash servers b)
  unfolding add_servers
  add_servers-Ringed P [] b has r = r
  add_servers-Ringed P (s ∷ servers) b has r =
      add_servers-Ringed P servers (add_server hash s b) has.1 (add_server-Ringed P s b has.0 r)

  add_servers-kept :
      (y : ℕ) (servers : List ServerAdd) (b : LoadBalancer)
      → In y b.hash_ring
      → In y (add_servers hash servers b).hash_ring
  unfolding add_servers add_server
  add_servers-kept y [] b there = there
  add_servers-kept y (s ∷ servers) b there =
      add_servers-kept y servers (add_server hash s b)
        (In-kept (server_hash hash s) y b.hash_ring there)

  add_servers-covered :
      (servers : List ServerAdd) (b : LoadBalancer)
      → All (λ t. In (server_hash hash t) (add_servers hash servers b).hash_ring) servers
  unfolding add_servers add_server
  add_servers-covered [] b = tt
  add_servers-covered (s ∷ servers) b = (
    add_servers-kept (server_hash hash s) servers (add_server hash s b)
        (In-inserted (server_hash hash s) b.hash_ring),
    add_servers-covered servers (add_server hash s b),
  )

  -- A balancer for one server or more: `getServer` gives a server for every key. It is one of the servers; its hash
  -- is the least of theirs that is not below the hash of the key, or, where all of theirs are below it, the least
  -- of all.
  pub get_server-least :
      (key : Text) (s : ServerAdd) (rest : List ServerAdd)
      → (t : ServerAdd) × (get_server hash key (add_servers hash (s ∷ rest) empty_balancer)
          ≡ some t)
        × Member t (s ∷ rest)
        × (((hash_key hash key ≤ server_hash hash t)
              × All
                  (λ u.
                    (server_hash hash u < hash_key hash key)
                    ⊎ (server_hash hash t ≤ server_hash hash u))
                  (s ∷ rest))
            ⊎ (All (λ u. server_hash hash u < hash_key hash key) (s ∷ rest)
                × All (λ u. server_hash hash t ≤ server_hash hash u) (s ∷ rest)))
  unfolding get_server
  get_server-least key s rest =
      let servers = s ∷ rest in
      let h = hash_key hash key in
      let b = add_servers hash servers empty_balancer in
      let P = λ (u : ServerAdd). Member u servers in
      let r : Ringed P b =
        add_servers-Ringed P servers empty_balancer (members_of P servers (λ u there. there))
          (record { sorted = tt; known = λ x there. absurd (omega (arith, there)) }) in
      let covered = add_servers-covered servers empty_balancer in
      let (x, found, there, chosen) =
        nearest-found h (server_hash hash s) b.hash_ring r.sorted covered.0 in
      let (member, hashed) = r.known x there in
      let t = server_at x b.server_map in
      (
        t,
        rw (get_server, found) refl,
        member,
        elim chosen [
          | inl (from, least) ↦ inl (
            rw hashed from,
            All-map (λ u. In (server_hash hash u) b.hash_ring)
                (λ u. (server_hash hash u < h) ⊎ (server_hash hash t ≤ server_hash hash u)) servers
                (λ u at. elim (Bool-cases (leb h (server_hash hash u))) [
                  | inl e ↦ inr (rw hashed (least (server_hash hash u) at (ground (arith, e))))
                  | inr e ↦ inl (ground (arith, e))
                ])
                covered,
          )
          | inr (below, least) ↦ inr (
            All-map (λ u. In (server_hash hash u) b.hash_ring) (λ u. server_hash hash u < h) servers
                (λ u at. below (server_hash hash u) at) covered,
            All-map (λ u. In (server_hash hash u) b.hash_ring)
                (λ u. server_hash hash t ≤ server_hash hash u) servers
                (λ u at. rw hashed (least (server_hash hash u) at)) covered,
          )
        ],
      )
