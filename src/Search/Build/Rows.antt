-- ===== src/Search/Build/Rows.antt =====
-- The rows of the page read off the elements of `createResults`, docs/html/search/search.js.
use blink_db.Base.{
  ℕ, suc, List, [], ◌∷◌, ◌++◌, Option, none, some, false, ◌≡◌, refl, ap, ap₂, ◌∙◌, arith, Text,
  codes, length, map,
}
use mathlib.Core.Option.{or_else}
use blink_db.Search.Script.{lower_unit}
use blink_db.Search.Tree.{
  Tag, Node, element, Nodes, nil, cons, tag_of, child_nodes, is_div, is_children,
  find_child_element,
}
use blink_db.Search.Tree.Walk.{first, firsts, find_child_element-firsts}
use blink_db.Search.Results.{Row, unset}
use blink_db.Search.Build.{
  Target, Entry, create_element, set_class_attr, set_key_actions, set_link, item_link,
  child_nodes_from, scope_span, children_div, entry_nodes, result_node, results_from,
  create_results,
}

pub count_nodes : Nodes → ℕ
count_nodes nil = 0
count_nodes (cons n ns) = suc (count_nodes ns)

-- What the scripts see of an element of the result list.
pub row_of : Node → Row
row_of n = record {
  class_name = (tag_of n).class_name;
  id = (tag_of n).id;
  display = unset;
  children = elim (find_child_element n) [
    | none ↦ none
    | some c ↦ some (record { display = unset; links = count_nodes (child_nodes c) })
  ];
}

pub rows_of : Nodes → List Row
rows_of nil = []
rows_of (cons n ns) = row_of n ∷ rows_of ns

-- The row of an entry: it has children exactly if the entry has several targets, and a link for each.
abbrev pub entry_row : Entry → Row
entry_row d = record {
  class_name = codes "SRResult";
  id = codes "SR_" ++ d.id;
  display = unset;
  children = elim d.more [
    | [] ↦ none
    | g ∷ gs ↦ some (record { display = unset; links = suc (suc (length gs)) })
  ];
}

count-child_nodes_from :
    (e c : ℕ) (gs : List Target) → count_nodes (child_nodes_from e c gs) ≡ length gs
unfolding count_nodes child_nodes_from
count-child_nodes_from e c [] = refl
count-child_nodes_from e c (g ∷ gs) = ap suc (count-child_nodes_from e (suc c) gs)

-- A link is no div, whatever its target.
link_is_div : (g : Target) (t : Tag) → is_div (element (set_link g t) nil) ≡ is_div (element t nil)
unfolding set_link is_div
link_is_div g t = ground arith

-- The walk passes over an element that is no div, and enters the div `SREntry`.
pass_over :
    (t : Tag) (ns : Nodes)
    → is_div (element t nil) ≡ false
    → firsts (cons (element t nil) ns) ≡ firsts ns
unfolding first is_children or_else
pass_over t ns h = rw h

or_else-none : (a : Option Node) → or_else a none ≡ a
unfolding or_else
or_else-none none = refl
or_else-none (some a) = refl

enter_entry :
    (ns : Nodes)
    → firsts
        (cons (element (set_class_attr (codes "SREntry") (create_element (codes "div"))) ns) nil)
      ≡ firsts ns
unfolding first is_children is_div set_class_attr create_element lower_unit
enter_entry ns = or_else-none (firsts ns)

find_entry : (e : ℕ) (d : Entry) → find_child_element (result_node e d) ≡ firsts (entry_nodes e d)
unfolding result_node
find_entry e d = find_child_element-firsts _ _ ∙ enter_entry (entry_nodes e d)

a_is_div : (e : ℕ) (n : Text) → is_div (element (item_link e n) nil) ≡ false
unfolding is_div item_link set_class_attr set_key_actions create_element lower_unit
a_is_div e n = refl

no_span : (g : Target) → firsts (cons (scope_span g) nil) ≡ none
unfolding scope_span first is_children is_div set_class_attr create_element lower_unit or_else
no_span g = refl

children_found :
    (e : ℕ) (gs : List Target) → firsts (cons (children_div e gs) nil) ≡ some (children_div e gs)
unfolding children_div first is_children is_div set_class_attr create_element lower_unit or_else
children_found e gs = refl

find_single :
    (e : ℕ) (i n : Text) (g : Target)
    → firsts (entry_nodes e (record { id = i; name = n; target = g; more = [] })) ≡ none
unfolding entry_nodes
find_single e i n g =
    pass_over (set_link g (item_link e n)) (cons (scope_span g) nil)
      (link_is_div g (item_link e n) ∙ a_is_div e n)
    ∙ no_span g

toggle_link : ℕ → Text → Text → Tag
toggle_link e n h = record (item_link e n) { href = h }

toggle_is_div : (e : ℕ) (n h : Text) → is_div (element (toggle_link e n h) nil) ≡ false
unfolding toggle_link is_div item_link set_class_attr set_key_actions create_element lower_unit
toggle_is_div e n h = refl

find_multiple :
    (e : ℕ) (i n : Text) (g h : Target) (gs : List Target)
    → firsts (entry_nodes e (record { id = i; name = n; target = g; more = h ∷ gs }))
      ≡ some (children_div e (g ∷ h ∷ gs))
unfolding entry_nodes toggle_link
find_multiple e i n g h gs =
    pass_over
      (toggle_link e n (codes "javascript:searchResults.Toggle(\"SR_" ++ (i ++ codes "\")")))
      (cons (children_div e (g ∷ h ∷ gs)) nil) (toggle_is_div e n _)
    ∙ children_found e (g ∷ h ∷ gs)

links-children_div :
    (e : ℕ) (gs : List Target) → count_nodes (child_nodes (children_div e gs)) ≡ length gs
unfolding children_div
links-children_div e gs = count-child_nodes_from e 0 gs

result_class : (e : ℕ) (d : Entry) → (tag_of (result_node e d)).class_name ≡ codes "SRResult"
unfolding result_node set_class_attr
result_class e d = refl

result_id : (e : ℕ) (d : Entry) → (tag_of (result_node e d)).id ≡ codes "SR_" ++ d.id
unfolding result_node set_class_attr
result_id e d = refl

row_of-result_node :
    (e : ℕ) (i n : Text) (g : Target) (more : List Target)
    → let d : Entry = record { id = i; name = n; target = g; more = more } in
      row_of (result_node e d) ≡ entry_row d
unfolding row_of
row_of-result_node e i n g [] = rw (find_entry, find_single e i n g, result_class, result_id)
row_of-result_node e i n g (h ∷ gs) =
    rw (find_entry, find_multiple e i n g h gs, links-children_div, result_class, result_id)

rows_of-results_from : (e : ℕ) (ds : List Entry) → rows_of (results_from e ds) ≡ map entry_row ds
unfolding rows_of results_from
rows_of-results_from e [] = refl
rows_of-results_from e (d ∷ ds) =
    ap₂ ◌∷◌ (row_of-result_node e d.id d.name d.target d.more) (rows_of-results_from (suc e) ds)

-- `createResults` gives each entry a row `SR_<id>` with a link for each target where there are
-- several; the walk of `FindChildElement` finds the div of those links, and nothing where the entry has
-- one target.
pub rows_of-create_results : (ds : List Entry) → rows_of (create_results ds) ≡ map entry_row ds
unfolding create_results
rows_of-create_results ds = rows_of-results_from 0 ds
