-- ===== src/Menu/Read.antt =====
-- A reader of the markup of the menu, and what it reads back, docs/html/menu.js.
use blink_db.Base.{
  ◌>>=◌, ◌≢◌, ℕ, zero, suc, ◌+◌, [], ◌∷◌, ◌++◌, Option, none, some, Text, All, length, drop,
  starts_with, ◌==◌, if◌then◌else◌,
}
use blink_db.Menu.{
  Menu, leaf, children, Items, nil, cons, item, ul_open, ul_close, link_open, link_mid, link_close,
  li_close,
}

-- The text up to the first `c`, and the rest from there.
unfoldable pub until : ℕ → Text → Text × Text
until c [] = ([], [])
until c (d ∷ s) = let more = until c s in if d == c then ([], d ∷ s) else (d ∷ more.0, more.1)

-- The rest behind a text that has to be there.
unfoldable pub expect : Text → Text → Option Text
expect t s = if starts_with t s then some (drop (length t) s) else none

-- The address and the text of a link, and the rest behind it.
unfoldable pub read_link : Text → Option (Text × Text × Text)
read_link s = do
  r ← expect link_open s
  let url = until b'"' r
  r ← expect link_mid url.1
  let text = until b'<' r
  r ← expect link_close text.1
  some (url.0, text.0, r)

-- A menu and the rest behind it, and the items of a list and the rest behind them.
unfoldable mutual
  pub read_menu : ℕ → Text → Option (Menu × Text)
  read_menu zero s = none
  read_menu (suc n) s = elim (expect ul_open s) [
    | none ↦ some (leaf, s)
    | some r ↦ read_items n r >>= λ l. expect ul_close l.1 >>= λ r. some (children l.0, r)
  ]

  pub read_items : ℕ → Text → Option (Items × Text)
  read_items zero s = none
  read_items (suc n) s = elim (read_link s) [
    | none ↦ some (nil, s)
    | some l ↦ read_menu n l.2 >>= λ m. expect li_close m.1 >>= λ r.
        read_items n r >>= λ l2. some (cons (item l.1 l.0 m.0) l2.0, l2.1)
  ]

-- The menu with `rel` before every address, and its size.
unfoldable mutual
  pub prefixed : Text → Menu → Menu
  prefixed rel leaf = leaf
  prefixed rel (children is) = children (prefixed_items rel is)

  pub prefixed_items : Text → Items → Items
  prefixed_items rel nil = nil
  prefixed_items rel (cons (item t u m) is) =
      cons (item t (rel ++ u) (prefixed rel m)) (prefixed_items rel is)

unfoldable mutual
  pub size : Menu → ℕ
  size leaf = 1
  size (children is) = suc (size_items is)

  pub size_items : Items → ℕ
  size_items nil = 1
  size_items (cons (item t u m) is) = suc (size m + size_items is)

-- No address has a quote, and no text a `<`.
abbrev pub Lacks : ℕ → Text → Type 0
Lacks c s = All (λ u. u ≢ c) s

unfoldable mutual
  pub IsClean : Menu → Type 0
  IsClean leaf = Unit {0}
  IsClean (children is) = IsCleanItems is

  pub IsCleanItems : Items → Type 0
  IsCleanItems nil = Unit {0}
  IsCleanItems (cons (item t u m) is) = Lacks b'<' t × Lacks b'"' u × IsClean m × IsCleanItems is
