-- ===== src/Search/Tree.antt =====
-- The elements of a page as a tree, and `FindChildElement` of docs/html/search/search.js, which walks
-- through it.
pub mod Walk
use blink_db.Base.{
  ℕ, zero, suc, ◌+◌, List, [], ◌∷◌, Option, none, some, Bool, true, false, ◌&&◌, if◌then◌else◌,
  Text, codes, text_eq,
}
use blink_db.Search.Script.{to_lower_case}

-- An element without its children; an attribute that is not set is the empty text.
pub record Tag : Type 0 where
  pub name : Text
  pub id : Text
  pub class_name : Text
  pub inner : Text
  pub href : Text
  pub target : Text
  pub key_action : Text

mutual
  pub data Node : Type 0 where
    element : Tag → Nodes → Node

  pub data Nodes : Type 0 where
    nil : Nodes
    cons : Node → Nodes → Nodes

abbrev pub tag_of : Node → Tag
tag_of (element t ns) = t

abbrev pub child_nodes : Node → Nodes
child_nodes (element t ns) = ns

-- `hasChildNodes()`; the text of an element counts as a child, and no div here has one.
abbrev pub has_nodes : Nodes → Bool
has_nodes nil = false
has_nodes (cons n ns) = true

unfoldable pub is_div : Node → Bool
is_div n = text_eq (to_lower_case (tag_of n).name) (codes "div")

unfoldable pub is_children : Node → Bool
is_children n = is_div n && text_eq (tag_of n).class_name (codes "SRChildren")

-- The inner loop `do … while`: up to the next element that has a sibling behind it. The stack holds
-- the siblings behind the ancestors, the nearest first, up to `parentElement` and without it.
unfoldable pub climb : List Nodes → Option (Node × Nodes × List Nodes)
climb [] = none
climb (nil ∷ up) = climb up
climb (cons n ns ∷ up) = some (n, ns, up)

-- Where the loop goes from an element that is not the one looked for: to its first child if it is a
-- div with children, else to its next sibling, else up.
unfoldable pub advance : Node → Nodes → List Nodes → Option (Node × Nodes × List Nodes)
advance e behind up =
    if is_div e && has_nodes (child_nodes e)
    then climb (child_nodes e ∷ behind ∷ up)
    else climb (behind ∷ up)

-- The outer loop, at `element` with the siblings behind it.
unfoldable pub find_rounds : ℕ → Node → Nodes → List Nodes → Option Node
find_rounds zero e behind up = none
find_rounds (suc rounds) e behind up = elim (is_children e) [
  | true ↦ some e
  | false ↦ elim (advance e behind up) [
    | none ↦ none
    | some (f, behind', up') ↦ find_rounds rounds f behind' up'
  ]
]

unfoldable mutual
  pub size : Node → ℕ
  size (element t ns) = suc (sizes ns)

  pub sizes : Nodes → ℕ
  sizes nil = 0
  sizes (cons n ns) = size n + sizes ns

-- `FindChildElement(id)` for the element with that id: no element is met twice.
unfoldable pub find_child_element : Node → Option Node
find_child_element parent = elim (child_nodes parent) [
  | nil ↦ none
  | cons e behind ↦ find_rounds (size parent) e behind []
]
