-- ===== src/Tests/Menus.antt =====
-- The theorem about the menu, for the menu of the documentation.
use blink_db.Base.{[], some, true, false, ◌≡◌, arith, codes}
use blink_db.Menu.{init_menu}
use blink_db.Menu.Read.{read_menu, prefixed, size, IsClean}
use blink_db.Menu.RoundTrip.{read_menu-init_menu}
use blink_db.Menu.Data.{menudata}

menudata-IsClean : IsClean menudata
unfolding IsClean
menudata-IsClean = omega arith

read_menu-init_menu_example :
    read_menu
      (size menudata)
      (init_menu menudata (codes "../") true false (codes "search.html") (codes "Search")).markup
    ≡ some (prefixed (codes "../") menudata, [])
read_menu-init_menu_example =
    read_menu-init_menu menudata (codes "../") true false (codes "search.html") (codes "Search")
      (omega arith) menudata-IsClean
