-- ===== src/Tests/Dicts.antt =====
-- The theorems about the dictionary, at concrete calls.
use blink_db.Base.{
  ℕ, suc, ◌+◌, ◌*◌, ◌%◌, ◌^◌, ◌≤◌, ◌<◌, [], ◌∷◌, some, true, ◌⊎◌, ◌≡◌, refl, arith, Text, codes,
  length, List,
}
use blink_db.Dict.{Dict, new, next_power}
use blink_db.Dict.Keys.{string_key}
use blink_db.Dict.Methods.{remove}
use blink_db.Dict.Rehash.Loop.{Finished, rehash_loop_finishes}
use blink_db.Dict.Methods.Power.{next_power_bounds}
use blink_db.Dict.Methods.Changes.Removal.{remove-total_size}
use blink_db.Dict.Run.{
  Call, add_call, replace_call, remove_call, find_call, size_call, rehash_call, Stands, returned,
  value, no_answer, nothing, map_call, map_run, dict_run, run_refines,
}

abbrev text_size : Text → ℕ → ℕ
text_size k v = 24 + length k + 1

abbrev calls : List (Call Text ℕ)
calls =
    add_call (codes "a") 1
    ∷ add_call (codes "b") 2
    ∷ add_call (codes "c") 3
    ∷ add_call (codes "d") 4
    ∷ add_call (codes "e") 5
    ∷ add_call (codes "a") 6
    ∷ replace_call (codes "b") 7
    ∷ remove_call (codes "c")
    ∷ find_call (codes "b")
    ∷ rehash_call 1
    ∷ size_call
    ∷ []

run_refines_example :
    (e : Dict Text ℕ) × (dict_run text_size calls (new true) ≡ some (e, (map_run calls nothing).1))
    × Stands (map_run calls nothing).0 e
run_refines_example = run_refines text_size calls true

-- The answers of that run.
run_answers :
    (map_run calls nothing).1
    ≡ returned 0
      ∷ returned 0
      ∷ returned 0
      ∷ returned 0
      ∷ returned 0
      ∷ returned 1
      ∷ returned 0
      ∷ returned 0
      ∷ value (some 7)
      ∷ no_answer
      ∷ returned 4
      ∷ []
unfolding map_run map_call
run_answers = refl

next_power_bounds_example :
    (5 ≤ next_power 5)
    × ((e : ℕ) × (next_power 5 ≡ 4 * 2 ^ e))
    × ((next_power 5 ≡ 4) ⊎ (next_power 5 < 2 * 5))
next_power_bounds_example = next_power_bounds 5 (omega arith)

abbrev five : List (Call Text ℕ)
five =
    add_call (codes "a") 1
    ∷ add_call (codes "b") 2
    ∷ add_call (codes "c") 3
    ∷ add_call (codes "d") 4
    ∷ add_call (codes "e") 5
    ∷ []

-- The dictionary after five insertions.
abbrev filled : Dict Text ℕ
filled = (run_refines text_size five true).0

abbrev filled-Stands : Stands (map_run five nothing).0 filled
filled-Stands = (run_refines text_size five true).2

rehash_loop_finishes_example : Finished (suc filled.ht0.size) 1 filled
rehash_loop_finishes_example = rehash_loop_finishes 1 filled (omega arith) filled-Stands.whole

remove-total_size_example :
    (e : Dict Text ℕ) × (remove text_size (codes "c") filled ≡ some (e, 0))
    × (e.total_size ≡ (filled.total_size + text_size (codes "c") 3) % 2 ^ 64)
unfolding map_run map_call
remove-total_size_example =
    remove-total_size text_size (map_run five nothing).0.at (map_run five nothing).0.number
      (codes "c") 3 filled filled-Stands refl
