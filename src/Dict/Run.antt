-- ===== src/Dict/Run.antt =====
-- A dictionary in use: a sequence of calls of lib/dict.h, beside the map that it stands for.
use blink_db.Base.{
  ℕ, ◌+◌, ◌-◌, List, [], ◌∷◌, Option, none, some, Bool, inl, inr, ◌≡◌, refl, sym, ap, subst, arith,
  ◌>>=◌, or_else,
}
use blink_db.Dict.Keys.{Key}
use blink_db.Dict.{Dict, new, reset, size, enable_resize}
use blink_db.Dict.Chains.{find_entry}
use blink_db.Dict.Chains.Laws.{count}
use blink_db.Dict.Chains.Buckets.{IsTable, bucket, entries}
use blink_db.Dict.Rehash.{rehash}
use blink_db.Dict.Rehash.Steps.{Fits, rehash_lem}
use blink_db.Dict.Methods.{add, replace, remove, find}
use blink_db.Dict.Methods.Lookups.{find_lem}
use blink_db.Dict.Methods.Changes.{Reads, Reads-Kept, update}
use blink_db.Dict.Methods.Changes.Additions.{add_lem}
use blink_db.Dict.Methods.Changes.Replacement.{replace_lem}
use blink_db.Dict.Methods.Changes.Removal.{remove_lem}

-- The calls of the class, and what they return. What `rehash` returns is of the tables, not of the map.
pub data Call (K V : Type 0) : Type 0 where
  add_call : K → V → Call K V
  replace_call : K → V → Call K V
  remove_call : K → Call K V
  find_call : K → Call K V
  size_call : Call K V
  rehash_call : ℕ → Call K V
  enable_call : Bool → Call K V

pub data Answer (V : Type 0) : Type 0 where
  returned : ℕ → Answer V
  value : Option V → Answer V
  no_answer : Answer V

-- A finite map: what it has at each key, and how many keys it has something at.
pub record Content (K V : Type 0) : Type 0 where
  pub at : K → Option V
  pub number : ℕ

module _ {K V : Type 0} ⦃key : Key K⦄ where
  abbrev pub nothing : Content K V
  nothing = record { at = λ k. none; number = 0 }

  abbrev pub with_value : K → V → Content K V → Content K V
  with_value k v c = record { at = update k (some v) c.at; number = c.number }

  abbrev pub with_new : K → V → Content K V → Content K V
  with_new k v c = record { at = update k (some v) c.at; number = c.number + 1 }

  abbrev pub with_none : K → Content K V → Content K V
  with_none k c = record { at = update k none c.at; number = c.number - 1 }

  -- The calls on the map.
  unfoldable pub map_call : Call K V → Content K V → Content K V × Answer V
  map_call (add_call k v) c = elim (c.at k) [
    | none ↦ (with_new k v c, returned 0)
    | some w ↦ (c, returned 1)
  ]
  map_call (replace_call k v) c = elim (c.at k) [
    | none ↦ (with_new k v c, returned 1)
    | some w ↦ (with_value k v c, returned 0)
  ]
  map_call (remove_call k) c = elim (c.at k) [
    | none ↦ (c, returned 1)
    | some w ↦ (with_none k c, returned 0)
  ]
  map_call (find_call k) c = (c, value (c.at k))
  map_call size_call c = (c, returned c.number)
  map_call (rehash_call n) c = (c, no_answer)
  map_call (enable_call enable) c = (c, no_answer)

  unfoldable pub map_run : List (Call K V) → Content K V → Content K V × List (Answer V)
  map_run [] c = (c, [])
  map_run (call ∷ calls) c =
      let (c1, a) = map_call call c in let (c2, answers) = map_run calls c1 in (c2, a ∷ answers)

  -- A dictionary that stands for a map.
  abbrev pub Stands : Content K V → Dict K V → Type 0
  Stands c d = Reads c.at c.number d

  enable_resize-Fits :
      (x : Option ℕ) (enable : Bool) (d : Dict K V) → Fits x d → Fits x (enable_resize enable d)
  enable_resize-Fits none enable d h = h
  enable_resize-Fits (some i) enable d m = record {
    table0 = m.table0;
    table1 = m.table1;
    pos0 = m.pos0;
    pos1 = m.pos1;
    apart = m.apart;
    emptied = m.emptied;
  }

  module _ (entry_size : K → V → ℕ) where
    -- The calls on the dictionary.
    unfoldable pub dict_call : Call K V → Dict K V → Option (Dict K V × Answer V)
    dict_call (add_call k v) d = add entry_size k v d >>= λ r. some (r.0, returned r.1)
    dict_call (replace_call k v) d = replace k v d >>= λ r. some (r.0, returned r.1)
    dict_call (remove_call k) d = remove entry_size k d >>= λ r. some (r.0, returned r.1)
    dict_call (find_call k) d = find k d >>= λ r. some (r.0, value r.1)
    dict_call size_call d = some (d, returned (size d))
    dict_call (rehash_call n) d = rehash n d >>= λ r. some (r.0, no_answer)
    dict_call (enable_call enable) d = some (enable_resize enable d, no_answer)

    unfoldable pub dict_run : List (Call K V) → Dict K V → Option (Dict K V × List (Answer V))
    dict_run [] d = some (d, [])
    dict_run (call ∷ calls) d =
        dict_call call d >>= λ r. dict_run calls r.0 >>= λ s. some (s.0, r.1 ∷ s.1)

    -- What a call promises.
    abbrev Refines : Call K V → Content K V → Dict K V → Type 0
    Refines call c d =
        (e : Dict K V) × (dict_call call d ≡ some (e, (map_call call c).1))
        × Stands (map_call call c).0 e

    refined :
        (call : Call K V) (c : Content K V) (d e : Dict K V) (r : Content K V × Answer V)
        → map_call call c ≡ r
        → dict_call call d ≡ some (e, r.1)
        → Stands r.0 e
        → Refines call c d
    refined call c d e r same run s =
        subst (λ r. (e : Dict K V) × (dict_call call d ≡ some (e, r.1)) × Stands r.0 e) (sym same)
          (e, run, s)

    dict_call-Refines :
        (call : Call K V) (c : Content K V) (d : Dict K V) → Stands c d → Refines call c d
    unfolding dict_call map_call
    dict_call-Refines (add_call k v) c d r =
        let (e, out) = add_lem entry_size c.at c.number k v d r in
        elim out [
          | inl (new, run, s) ↦
              refined (add_call k v) c d e (with_new k v c, returned 0) (rw (map_call, new) refl)
                (rw (dict_call, run, ◌>>=◌) refl) s
          | inr (w, old, run, s) ↦
              refined (add_call k v) c d e (c, returned 1) (rw (map_call, old) refl)
                (rw (dict_call, run, ◌>>=◌) refl) s
        ]
    dict_call-Refines (replace_call k v) c d r =
        let (e, out) = replace_lem c.at c.number k v d r in
        elim out [
          | inl (new, run, s) ↦
              refined (replace_call k v) c d e (with_new k v c, returned 1)
                (rw (map_call, new) refl) (rw (dict_call, run, ◌>>=◌) refl) s
          | inr (w, old, run, s) ↦
              refined (replace_call k v) c d e (with_value k v c, returned 0)
                (rw (map_call, old) refl) (rw (dict_call, run, ◌>>=◌) refl) s
        ]
    dict_call-Refines (remove_call k) c d r =
        let (e, out) = remove_lem entry_size c.at c.number k d r in
        elim out [
          | inl (new, run, s) ↦
              refined (remove_call k) c d e (c, returned 1) (rw (map_call, new) refl)
                (rw (dict_call, run, ◌>>=◌) refl) s
          | inr (w, old, run, more, s, total) ↦
              refined (remove_call k) c d e (with_none k c, returned 0) (rw (map_call, old) refl)
                (rw (dict_call, run, ◌>>=◌) refl) s
        ]
    dict_call-Refines (find_call k) c d r =
        let (e, run, whole, kept) = find_lem k d r.whole in
        (
          e,
          rw (run, ◌>>=◌) (ap (λ x. some (e, value x)) (r.reads k)),
          Reads-Kept c.at c.number d e r whole kept,
        )
    dict_call-Refines size_call c d r = (d, ap (λ n. some (d, returned n)) r.number, r)
    dict_call-Refines (rehash_call n) c d r =
        let (e, run, whole, kept) = rehash_lem n d r.whole in
        (e.0, rw (run, ◌>>=◌) refl, Reads-Kept c.at c.number d e.0 r whole kept)
    dict_call-Refines (enable_call enable) c d r = (
      enable_resize enable d,
      refl,
      record {
        whole = enable_resize-Fits d.rehashidx enable d r.whole;
        reads = r.reads;
        number = r.number;
      },
    )

    -- A run from a dictionary that stands for a map: no call reads outside of a table, each returns what
    -- the map returns, and the dictionary stands for the map after the run.
    pub run_from :
        (calls : List (Call K V)) (c : Content K V) (d : Dict K V)
        → Stands c d
        → (e : Dict K V) × (dict_run calls d ≡ some (e, (map_run calls c).1))
          × Stands (map_run calls c).0 e
    unfolding dict_run map_run
    run_from [] c d r = (d, refl, r)
    run_from (call ∷ calls) c d r =
        let (e, ran, s) = dict_call-Refines call c d r in
        let (f, rest, t) = run_from calls (map_call call c).0 e s in
        (f, rw (dict_run, ran, ◌>>=◌, rest, ◌>>=◌) refl, t)

  reset-IsTable : IsTable {K = K} {V = V} reset
  reset-IsTable = record {
    width = refl;
    mask = refl;
    counted = unfold entries in refl;
    placed = λ q i off. unfold bucket count in refl;
    once = λ q. unfold bucket count in omega arith;
  }

  pub new-Stands : (can_resize : Bool) → Stands nothing (new can_resize)
  new-Stands can_resize = record {
    whole = (reset-IsTable, refl);
    reads = λ q. unfold find_entry bucket or_else in refl;
    number = refl;
  }

module _ {K V : Type 0} ⦃key : Key K⦄ (entry_size : K → V → ℕ) where
  -- From a new dictionary, any sequence of calls of `add`, `replace`, `remove`, `find`, `size`, `rehash` and
  -- `enableResize` returns, without a read outside of a table; each call returns what it returns on a finite map, and the
  -- two tables hold the entries of that map, whatever was moved between them.
  pub run_refines :
      (calls : List (Call K V)) (can_resize : Bool)
      → (e : Dict K V) × (dict_run entry_size calls (new can_resize)
          ≡ some (e, (map_run calls nothing).1))
        × Stands (map_run calls nothing).0 e
  run_refines calls can_resize =
      run_from entry_size calls nothing (new can_resize) (new-Stands can_resize)
