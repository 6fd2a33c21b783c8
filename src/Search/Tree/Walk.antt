-- ===== src/Search/Tree/Walk.antt =====
-- `FindChildElement` finds the first `SRChildren` div in reading order, among those that only divs
-- enclose, and ends.
use blink_db.Base.{
  ℕ, zero, suc, ◌+◌, ◌≤◌, List, [], ◌∷◌, Option, none, some, true, false, ◌≡◌, refl, sym, ◌∙◌,
  arith, if◌then◌else◌, Bool-cases, Option-cases, inl, inr,
}
use mathlib.Core.Option.{or_else}
use blink_db.Search.Tree.{
  Tag, Node, element, Nodes, nil, cons, child_nodes, is_div, is_children, climb, advance,
  find_rounds, size, sizes, find_child_element,
}

-- The search by recursion on the tree.
unfoldable mutual
  pub first : Node → Option Node
  first (element t ns) =
      if is_children (element t ns)
      then some (element t ns)
      else if is_div (element t ns)
      then firsts ns
      else none

  pub firsts : Nodes → Option Node
  firsts nil = none
  firsts (cons n ns) = or_else (first n) (firsts ns)

firsts_all : List Nodes → Option Node
firsts_all [] = none
firsts_all (ns ∷ up) = or_else (firsts ns) (firsts_all up)

total : List Nodes → ℕ
total [] = 0
total (ns ∷ up) = sizes ns + total up

or_else_assoc : (a b c : Option Node) → or_else (or_else a b) c ≡ or_else a (or_else b c)
unfolding or_else
or_else_assoc none b c = refl
or_else_assoc (some n) b c = refl

climb-none : (work : List Nodes) → climb work ≡ none → firsts_all work ≡ none
unfolding climb firsts_all first or_else
climb-none [] h = refl
climb-none (nil ∷ up) h = climb-none up h
climb-none (cons n ns ∷ up) h = cc

climb_here :
    (n : Node) (ns : Nodes) (w : List Nodes) (f : Node) (behind : Nodes) (up : List Nodes)
    → ◌≡◌ {A = Option (Node × Nodes × List Nodes)} (some (n, ns, w)) (some (f, behind, up))
    → (firsts_all (cons n ns ∷ w) ≡ or_else (first f) (firsts_all (behind ∷ up)))
      × (total (cons n ns ∷ w) ≡ size f + total (behind ∷ up))
unfolding firsts_all total first size
climb_here n ns w f behind up h =
    let parts : or_else (first n) (or_else (firsts ns) (firsts_all w))
        ≡ or_else (first f) (or_else (firsts behind) (firsts_all up)) =
      cc in
    let sum : size n + (sizes ns + total w) ≡ size f + (sizes behind + total up) = cc in
    (or_else_assoc (first n) (firsts ns) (firsts_all w) ∙ parts, omega arith)

climb-some :
    (work : List Nodes) (f : Node) (behind : Nodes) (up : List Nodes)
    → climb work ≡ some (f, behind, up)
    → (firsts_all work ≡ or_else (first f) (firsts_all (behind ∷ up)))
      × (total work ≡ size f + total (behind ∷ up))
unfolding climb firsts_all total first size or_else
climb-some [] f behind up h = cc
climb-some (nil ∷ w) f behind up h =
    let (a, b) = climb-some w f behind up h in (a, omega (arith, b))
climb-some (cons n ns ∷ w) f behind up h = climb_here n ns w f behind up h

size-pos : (e : Node) → 1 ≤ size e
unfolding size
size-pos (element t ns) = omega arith

-- The work that is left after an element that is not the one looked for.
left_over : Node → Nodes → List Nodes → List Nodes
left_over e behind up = if is_div e then child_nodes e ∷ behind ∷ up else behind ∷ up

advance_lem :
    (e : Node) (behind : Nodes) (up : List Nodes)
    → advance e behind up ≡ climb (left_over e behind up)
unfolding advance left_over climb
advance_lem (element t nil) behind up = ground arith
advance_lem (element t (cons n ns)) behind up = ground arith

left_over-first :
    (e : Node) (behind : Nodes) (up : List Nodes)
    → is_children e ≡ false
    → firsts_all (left_over e behind up) ≡ or_else (first e) (firsts_all (behind ∷ up))
unfolding left_over first firsts_all or_else
left_over-first (element t ns) behind up h = elim (Bool-cases (is_div (element t ns))) [
  | inl d ↦ rw (h, d, left_over)
  | inr d ↦ rw (h, d, left_over)
]

left_over-total :
    (e : Node) (behind : Nodes) (up : List Nodes)
    → suc (total (left_over e behind up)) ≤ size e + total (behind ∷ up)
unfolding left_over total size
left_over-total (element t ns) behind up = ground arith

here : (e : Node) (r : Option Node) → is_children e ≡ true → or_else (first e) r ≡ some e
unfolding first or_else
here (element t ns) r h = rw h

find_rounds-first :
    (rounds : ℕ) (e : Node) (behind : Nodes) (up : List Nodes)
    → size e + total (behind ∷ up) ≤ rounds
    → find_rounds rounds e behind up ≡ or_else (first e) (firsts_all (behind ∷ up))
unfolding find_rounds
find_rounds-first zero e behind up fuel = absurd (omega (arith, size-pos e))
find_rounds-first (suc n) e behind up fuel = elim (Bool-cases (is_children e)) [
  | inl found ↦ rw (found, find_rounds) (sym (here e (firsts_all (behind ∷ up)) found))
  | inr other ↦ elim (Option-cases (climb (left_over e behind up))) [
    | inl done ↦
        rw (other, find_rounds, advance_lem e behind up, done)
          (sym (climb-none (left_over e behind up) done) ∙ left_over-first e behind up other)
    | inr ((f, behind', up'), go) ↦
        let (same, count) = climb-some (left_over e behind up) f behind' up' go in
        let enough : size f + total (behind' ∷ up') ≤ n =
          omega (arith, left_over-total e behind up) in
        rw (other, find_rounds, advance_lem e behind up, go)
          (find_rounds-first n f behind' up' enough
            ∙ (sym same ∙ left_over-first e behind up other))
  ]
]

enough :
    (t : Tag) (e : Node) (behind : Nodes)
    → size e + total (behind ∷ []) ≤ size (element t (cons e behind))
unfolding total size
enough t e behind = omega arith

or_else-none : (a b : Option Node) → or_else a (or_else b none) ≡ or_else a b
unfolding or_else
or_else-none none none = refl
or_else-none none (some b) = refl
or_else-none (some a) b = refl

-- `FindChildElement` finds what the search by recursion finds among the children of the element, and
-- nothing exactly where that finds nothing: the loop ends, and the way up never leaves the element.
pub find_child_element-firsts :
    (t : Tag) (ns : Nodes) → find_child_element (element t ns) ≡ firsts ns
unfolding find_child_element first firsts_all or_else
find_child_element-firsts t nil = refl
find_child_element-firsts t (cons e behind) =
    find_rounds-first (size (element t (cons e behind))) e behind [] (enough t e behind)
    ∙ or_else-none (first e) (firsts behind)
