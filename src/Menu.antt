-- ===== src/Menu.antt =====
-- The menu of the HTML documentation: `initMenu` and `makeTree` of docs/html/menu.js.
pub mod Read
pub mod RoundTrip
pub mod Data
pub mod PartA
pub mod PartB
use Prim.Native.String.{String}
use blink_db.Base.{List, [], ◌∷◌, ◌++◌, Bool, true, false, Text, codes, if◌then◌else◌}

-- `{text, url, children}`: an item has an array of children or none, and the whole menu has only children.
mutual
  pub data Item : Type 0 where
    item : Text → Text → Menu → Item

  pub data Menu : Type 0 where
    leaf : Menu
    children : Items → Menu

  pub data Items : Type 0 where
    nil : Items
    cons : Item → Items → Items

abbrev pub list : List Item → Menu
list is = children (items is)
  where
    items : List Item → Items
    items [] = nil
    items (i ∷ is) = cons i (items is)

abbrev pub link : String → String → Menu → Item
link text url menu = item (codes text) (codes url) menu

abbrev pub ul_open : Text
ul_open = codes "<ul>"

abbrev pub ul_close : Text
ul_close = codes "</ul>"

abbrev pub link_open : Text
link_open = codes "<li><a href=\""

abbrev pub link_mid : Text
link_mid = codes "\">"

abbrev pub link_close : Text
link_close = codes "</a>"

abbrev pub li_close : Text
li_close = codes "</li>"

-- `makeTree(data, relPath)`, and its loop over the children.
unfoldable mutual
  pub make_tree : Text → Menu → Text
  make_tree rel leaf = []
  make_tree rel (children is) = ul_open ++ (make_items rel is ++ ul_close)

  pub make_items : Text → Items → Text
  make_items rel nil = []
  make_items rel (cons i is) = make_item rel i ++ make_items rel is

  pub make_item : Text → Item → Text
  make_item rel (item text url menu) =
      link_open
      ++ (rel ++ (url ++ (link_mid ++ (text ++ (link_close ++ (make_tree rel menu ++ li_close))))))

-- What `initMenu` leaves in `#main-nav`: the markup of the menu, the class and the id that its first
-- element gets, and the markup that is appended to the menu.
pub record Nav : Type 0 where
  pub markup : Text
  pub class_name : Text
  pub id : Text
  pub search_item : Text
  pub smart : Bool

-- The item with the search box, for a search on the server.
unfoldable pub server_item : Text → Text → Text → Text
server_item rel page search =
    codes
      "<li style=\"float:right\"><div id=\"MSearchBox\" class=\"MSearchBoxInactive\"><div class=\"left\"><form id=\"FSearchBox\" action=\""
    ++ (rel
        ++ (page
            ++ (codes "\" method=\"get\"><img id=\"MSearchSelect\" src=\""
                ++ (rel
                    ++ (codes
                          "search/mag.svg\" alt=\"\"/><input type=\"text\" id=\"MSearchField\" name=\"query\" value=\""
                        ++ (search
                            ++ codes
                                "\" size=\"20\" accesskey=\"S\" onfocus=\"searchBox.OnSearchFieldFocus(true)\" onblur=\"searchBox.OnSearchFieldFocus(false)\"></form></div><div class=\"right\"></div></div></li>"))))))

-- The item with the search box, for a search in the browser.
unfoldable pub client_item : Text → Text → Text
client_item rel search =
    codes
      "<li style=\"float:right\"><div id=\"MSearchBox\" class=\"MSearchBoxInactive\"><span class=\"left\"><img id=\"MSearchSelect\" src=\""
    ++ (rel
        ++ (codes
              "search/mag_sel.svg\" onmouseover=\"return searchBox.OnSearchSelectShow()\" onmouseout=\"return searchBox.OnSearchSelectHide()\" alt=\"\"/><input type=\"text\" id=\"MSearchField\" value=\""
            ++ (search
                ++ (codes
                      "\" accesskey=\"S\" onfocus=\"searchBox.OnSearchFieldFocus(true)\" onblur=\"searchBox.OnSearchFieldFocus(false)\" onkeyup=\"searchBox.OnSearchFieldChange(event)\"/></span><span class=\"right\"><a id=\"MSearchClose\" href=\"javascript:searchBox.CloseResultsWindow()\"><img id=\"MSearchCloseImg\" border=\"0\" src=\""
                    ++ (rel ++ codes "search/close.svg\" alt=\"\"/></a></span></div></li>")))))

-- `initMenu(relPath, searchEnabled, serverSide, searchPage, search)` with a menu for `menudata`.
unfoldable pub init_menu : Menu → Text → Bool → Bool → Text → Text → Nav
init_menu menudata rel enabled server_side page search = record {
  markup = make_tree rel menudata;
  class_name = codes "sm sm-dox";
  id = codes "main-menu";
  search_item =
      if enabled
      then (if server_side then server_item rel page search else client_item rel search)
      else [];
  smart = true;
}
