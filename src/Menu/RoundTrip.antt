-- ===== src/Menu/RoundTrip.antt =====
-- The markup of `makeTree`, docs/html/menu.js, read back.
use blink_db.Base.{
  Bool, append-nil, ℕ, zero, suc, ◌≤◌, [], ◌∷◌, ◌++◌, none, some, Text, All-append, drop,
  drop-append, starts_with, starts_with-append, ◌==◌, ==_refl, false, ◌≡◌, refl, arith,
  append_assoc,
}
use blink_db.Menu.{
  Menu, leaf, children, Items, nil, cons, item, ul_open, ul_close, link_open, link_mid, link_close,
  li_close, make_tree, make_items, make_item, init_menu,
}
use blink_db.Menu.Read.{
  until, expect, read_link, read_menu, read_items, prefixed, prefixed_items, size, size_items,
  Lacks, IsClean, IsCleanItems,
}

expect-append : (t s : Text) → expect t (t ++ s) ≡ some s
unfolding expect
expect-append t s = rw (starts_with-append t s, drop-append t s) refl

until-append : (c : ℕ) (a r : Text) → Lacks c a → until c (a ++ c ∷ r) ≡ (a, c ∷ r)
unfolding until
until-append c [] r h = rw (==_refl c) refl
until-append c (d ∷ a) r h =
    let other : (d == c) ≡ false = ground (arith, h.0) in rw (other, until-append c a r h.1) refl

read_link-item :
    (rel url text rest : Text)
    → Lacks b'"' rel
    → Lacks b'"' url
    → Lacks b'<' text
    → read_link (link_open ++ (rel ++ (url ++ (link_mid ++ (text ++ (link_close ++ rest))))))
      ≡ some (rel ++ url, text, rest)
unfolding read_link
read_link-item rel url text rest hr hu ht =
    rw
      (
        expect-append link_open,
        ← append_assoc rel url,
        until-append b'"' (rel ++ url) (b'>' ∷ (text ++ (link_close ++ rest)))
            (All-append _ rel url hr hu),
        expect-append link_mid (text ++ (link_close ++ rest)),
        until-append b'<' text (drop 1 link_close ++ rest) ht,
        expect-append link_close rest,
      )
      refl

-- What a reader with n rounds promises for a menu, and for the items of a list.
ReadsMenu : Text → ℕ → Type 0
ReadsMenu rel n =
    (m : Menu) (rest : Text)
    → IsClean m
    → size m ≤ n
    → starts_with ul_open rest ≡ false
    → read_menu n (make_tree rel m ++ rest) ≡ some (prefixed rel m, rest)

ReadsItems : Text → ℕ → Type 0
ReadsItems rel n =
    (is : Items) (rest : Text)
    → IsCleanItems is
    → size_items is ≤ n
    → starts_with link_open rest ≡ false
    → read_items n (make_items rel is ++ rest) ≡ some (prefixed_items rel is, rest)

expect_no : (t s : Text) → starts_with t s ≡ false → expect t s ≡ none
unfolding expect
expect_no t s h = rw h refl

read_link_no : (s : Text) → starts_with link_open s ≡ false → read_link s ≡ none
unfolding read_link
read_link_no s h = rw (expect_no link_open s h) refl

read_menu_step : (rel : Text) (n : ℕ) → ReadsItems rel n → ReadsMenu rel (suc n)
unfolding ReadsMenu ReadsItems read_menu make_tree prefixed size IsClean
read_menu_step rel n ih leaf rest clean le off = rw (read_menu, expect_no ul_open rest off) refl
read_menu_step rel n ih (children is) rest clean le off =
    rw
      (
        append_assoc (make_items rel is),
        read_menu,
        expect-append ul_open (make_items rel is ++ (ul_close ++ rest)),
        ih is (ul_close ++ rest) clean (omega arith) refl,
        expect-append ul_close rest,
      )
      refl

make_item-append :
    (rel t u : Text) (m : Menu) (more rest : Text)
    → (make_item rel (item t u m) ++ more) ++ rest
      ≡ link_open
        ++ (rel
            ++ (u
                ++ (link_mid
                    ++ (t ++ (link_close ++ (make_tree rel m ++ (li_close ++ (more ++ rest))))))))
unfolding make_item
make_item-append rel t u m more rest = simp append_assoc

read_items_step :
    (rel : Text) (n : ℕ)
    → Lacks b'"' rel
    → ReadsMenu rel n
    → ReadsItems rel n
    → ReadsItems rel (suc n)
unfolding ReadsMenu ReadsItems read_items make_items prefixed_items size_items IsCleanItems
read_items_step rel n hr menus items nil rest clean le off =
    rw (read_items, read_link_no rest off) refl
read_items_step rel n hr menus items (cons (item t u m) is) rest clean le off =
    rw
      (
        make_item-append rel t u m (make_items rel is) rest,
        read_items,
        read_link-item rel u t (make_tree rel m ++ (li_close ++ (make_items rel is ++ rest))) hr
            clean.1 clean.0,
        menus m (li_close ++ (make_items rel is ++ rest)) clean.2 (omega arith) refl,
        expect-append li_close (make_items rel is ++ rest),
        items is rest clean.3 (omega arith) off,
      )
      refl

one-le-size : (m : Menu) → 1 ≤ size m
unfolding size
one-le-size leaf = omega arith
one-le-size (children is) = omega arith

one-le-size_items : (is : Items) → 1 ≤ size_items is
unfolding size_items
one-le-size_items nil = omega arith
one-le-size_items (cons (item t u m) is) = omega arith

reads : (rel : Text) (n : ℕ) → Lacks b'"' rel → ReadsMenu rel n × ReadsItems rel n
unfolding ReadsMenu ReadsItems
reads rel zero hr = (
  λ m rest clean le. absurd (omega (arith, le, one-le-size m)),
  λ is rest clean le. absurd (omega (arith, le, one-le-size_items is)),
)
reads rel (suc n) hr =
    let (menus, items) = reads rel n hr in
    (read_menu_step rel n items, read_items_step rel n hr menus items)

-- Whatever the settings, the markup of the menu that `initMenu` makes has the menu's tree of links: a
-- reader of lists and links gets every text, every address with the path before it, and the nesting
-- back, with nothing left over. The path and the addresses have no quote, and the texts no `<`.
pub read_menu-init_menu :
    (m : Menu) (rel : Text) (enabled server_side : Bool) (page search : Text)
    → Lacks b'"' rel
    → IsClean m
    → read_menu (size m) (init_menu m rel enabled server_side page search).markup
      ≡ some (prefixed rel m, [])
unfolding init_menu ReadsMenu
read_menu-init_menu m rel enabled server_side page search hr clean =
    rw (← append-nil (make_tree rel m)) ((reads rel (size m) hr).0 m [] clean (omega arith) refl)
