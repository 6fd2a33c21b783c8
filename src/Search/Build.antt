-- ===== src/Search/Build.antt =====
-- `createResults`, `setKeyActions`, `setClassAttr` and `init_search` of docs/html/search/search.js: the
-- elements that the script makes from the tables of the index.
pub mod Rows
use blink_db.Base.{
  ℕ, zero, suc, ◌+◌, ◌/◌, ◌%◌, List, [], ◌∷◌, ◌++◌, Bool, true, false, Text, codes, ltb,
  if◌then◌else◌, ◌≡◌, refl,
}
use blink_db.Search.Tree.{Tag, Node, element, Nodes, nil, cons}
use blink_db.Search.Box.{Config, Box, Run}
use blink_db.Search.Box.Handlers.{on_select_item}

-- A target of an entry of `searchData`: `[url, in_parent, scope]`.
pub record Target : Type 0 where
  pub url : Text
  pub in_parent : Bool
  pub scope : Text

-- An entry `[id, [name, target, …]]`, which has at least one target.
pub record Entry : Type 0 where
  pub id : Text
  pub name : Text
  pub target : Target
  pub more : List Target

-- The digits of `n` before those already found; a number has 16 decimal digits at most, since it is
-- below 2 ^ 53.
unfoldable pub decimal_digits : ℕ → ℕ → Text → Text
decimal_digits zero n out = out
decimal_digits (suc rounds) n out =
    let rest = decimal_digits rounds (n / 10) ((b'0' + n % 10) ∷ out) in
    if ltb n 10 then (b'0' + n) ∷ out else rest

-- `"" + n`
unfoldable pub to_decimal : ℕ → Text
to_decimal n = decimal_digits 16 n []

-- `document.createElement(name)`
unfoldable pub create_element : Text → Tag
create_element name = record {
  name = name;
  id = [];
  class_name = [];
  inner = [];
  href = [];
  target = [];
  key_action = [];
}

-- `setKeyActions(elem, action)`, for all three events.
unfoldable pub set_key_actions : Text → Tag → Tag
set_key_actions action t = record t { key_action = action }

-- `setClassAttr(elem, attr)`
unfoldable pub set_class_attr : Text → Tag → Tag
set_class_attr attr t = record t { class_name = attr }

-- `href`, and `target` where the entry asks for the parent.
unfoldable pub set_link : Target → Tag → Tag
set_link g t =
    let linked = record t { href = g.url } in
    if g.in_parent then record linked { target = codes "_parent" } else linked

-- The link `Item<e>`, without its `href`.
unfoldable pub item_link : ℕ → Text → Tag
item_link e name =
    record (set_class_attr (codes "SRSymbol") (
      set_key_actions (codes "return searchResults.Nav(event," ++ (to_decimal e ++ codes ")"))
        (record (create_element (codes "a")) { id = codes "Item" ++ to_decimal e }))) {
          inner = name;
        }

-- The link `Item<e>_c<c>`.
unfoldable pub child_link : ℕ → ℕ → Target → Tag
child_link e c g =
    record (set_link g (
      set_class_attr (codes "SRScope") (
        set_key_actions
          (codes "return searchResults.NavChild(event,"
            ++ (to_decimal e ++ (codes "," ++ (to_decimal c ++ codes ")"))))
          (record (create_element (codes "a")) {
            id = codes "Item" ++ (to_decimal e ++ (codes "_c" ++ to_decimal c));
          })))) { inner = g.scope }

-- The loop over the targets of an entry.
unfoldable pub child_nodes_from : ℕ → ℕ → List Target → Nodes
child_nodes_from e c [] = nil
child_nodes_from e c (g ∷ gs) =
    cons (element (child_link e c g) nil) (child_nodes_from e (suc c) gs)

unfoldable pub scope_span : Target → Node
scope_span g =
    element
      (record (set_class_attr (codes "SRScope") (create_element (codes "span"))) {
        inner = g.scope;
      })
      nil

unfoldable pub children_div : ℕ → List Target → Node
children_div e gs =
    element (set_class_attr (codes "SRChildren") (create_element (codes "div")))
      (child_nodes_from e 0 gs)

-- What stands in the div `SREntry`: `searchData[e][1].length==2` where there is one target.
unfoldable pub entry_nodes : ℕ → Entry → Nodes
entry_nodes e d = elim d.more [
  | [] ↦
      cons (element (set_link d.target (item_link e d.name)) nil) (cons (scope_span d.target) nil)
  | g ∷ gs ↦
      cons
        (element
          (record (item_link e d.name) {
            href = codes "javascript:searchResults.Toggle(\"SR_" ++ (d.id ++ codes "\")");
          })
          nil)
        (cons (children_div e (d.target ∷ g ∷ gs)) nil)
]

-- The div `SRResult` of entry e.
unfoldable pub result_node : ℕ → Entry → Node
result_node e d =
    element
      (set_class_attr (codes "SRResult")
        (record (create_element (codes "div")) { id = codes "SR_" ++ d.id }))
      (cons
        (element (set_class_attr (codes "SREntry") (create_element (codes "div")))
          (entry_nodes e d))
        nil)

-- The loop of `createResults`, from entry e on.
unfoldable pub results_from : ℕ → List Entry → Nodes
results_from e [] = nil
results_from e (d ∷ ds) = cons (result_node e d) (results_from (suc e) ds)

-- `createResults()`
unfoldable pub create_results : List Entry → Nodes
create_results search_data = results_from 0 search_data

-- The loop of `init_search`, which makes a link for each label of a section. The key of a label is its
-- number.
unfoldable pub select_items_from : ℕ → List Text → Nodes
select_items_from key [] = nil
select_items_from key (l ∷ ls) =
    cons
      (element
        (record (create_element (codes "a")) {
          class_name = codes "SelectItem";
          key_action = codes "searchBox.OnSelectItem(" ++ (to_decimal key ++ codes ")");
          href = codes "javascript:void(0)";
          inner = codes "<span class=\"SelectionMark\">&#160;</span>" ++ l;
        })
        nil)
      (select_items_from (suc key) ls)

unfoldable pub no_marks : List Text → List Bool
no_marks [] = []
no_marks (l ∷ ls) = false ∷ no_marks ls

-- `init_search()`: the links, which begin without the mark, and the call `OnSelectItem(0)`.
unfoldable pub init_search : Config → List Text → Box → Nodes × Run
init_search cfg labels s =
    (select_items_from 0 labels, on_select_item cfg 0 (record s { marks = no_marks labels }))

to_decimal_runs : to_decimal 1024 ≡ codes "1024"
unfolding to_decimal decimal_digits
to_decimal_runs = refl
