-- ===== src/Tests/Servers.antt =====
-- The theorems about the balancer, at concrete servers.
use blink_db.Base.{ℕ, ◌+◌, [], ◌∷◌, ◌≡◌, some, ◌⊎◌, ◌≤◌, ◌<◌, All, Text, codes}
use blink_db.Balancer.{
  ServerAdd, LoadBalancer, empty_balancer, add_server, add_servers, get_server, hash_key,
  server_hash,
}
use blink_db.Balancer.Nearest.{Member, get_server-least}
use blink_db.Balancer.Ring.{get_server-add_server}

-- In the place of `std::hash`: the sum of the bytes.
abbrev sum_hash : Text → ℕ
sum_hash [] = 0
sum_hash (c ∷ s) = c + sum_hash s

abbrev balancer : LoadBalancer
balancer =
    add_servers sum_hash
      (record { port = 9001; ip = codes "127.0.0.1" }
        ∷ record { port = 9002; ip = codes "127.0.0.1" }
        ∷ [])
      empty_balancer

abbrev new_server : ServerAdd
new_server = record { port = 9003; ip = codes "127.0.0.1" }

get_server-add_server_example :
    (get_server sum_hash (codes "key") (add_server sum_hash new_server balancer) ≡ some new_server)
    ⊎ (get_server sum_hash (codes "key") (add_server sum_hash new_server balancer)
        ≡ get_server sum_hash (codes "key") balancer)
get_server-add_server_example = get_server-add_server sum_hash (codes "key") new_server balancer

abbrev first_server : ServerAdd
first_server = record { port = 9001; ip = codes "127.0.0.1" }

get_server-least_example :
    (t : ServerAdd) × (get_server sum_hash
        (codes "key")
        (add_servers sum_hash (first_server ∷ new_server ∷ []) empty_balancer)
      ≡ some t)
    × Member t (first_server ∷ new_server ∷ [])
    × (((hash_key sum_hash (codes "key") ≤ server_hash sum_hash t)
          × All
              (λ u.
                (server_hash sum_hash u < hash_key sum_hash (codes "key"))
                ⊎ (server_hash sum_hash t ≤ server_hash sum_hash u))
              (first_server ∷ new_server ∷ []))
        ⊎ (All
              (λ u. server_hash sum_hash u < hash_key sum_hash (codes "key"))
              (first_server ∷ new_server ∷ [])
            × All
                (λ u. server_hash sum_hash t ≤ server_hash sum_hash u)
                (first_server ∷ new_server ∷ [])))
get_server-least_example = get_server-least sum_hash (codes "key") first_server (new_server ∷ [])
