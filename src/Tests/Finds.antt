-- ===== src/Tests/Finds.antt =====
-- The first entry of the index is found.
use blink_db.Base.{[], ◌∷◌, ◌++◌, true, some, ◌≡◌, refl, arith, codes, get_elem?}
use blink_db.Search.Script.{lower_unit, strip_leading, strip_trailing, escape}
use blink_db.Search.Results.{block}
use blink_db.Search.Results.Found.{wanted}
use blink_db.Search.Box
use blink_db.Search.Box.{Box, done, page_name}
use blink_db.Search.Build.Rows.{entry_row}
use blink_db.Index.Entries.{entry, target}
use blink_db.Index.AllA.{all_0}
use blink_db.Index.Tables.{all_pages}
use blink_db.Index.Found.{loaded, entry_found}
use blink_db.Search.Build.{Entry}
use blink_db.Tests.Panel.{panel_config, typed}

abbrev add_entry : Entry
add_entry =
    entry "add_0" "add" (target "../classDict.html#ad7273850719fc8c228cb3e1cb3968b66" true "Dict")
      []

wanted_ad : wanted (codes " Ad") ≡ codes "ad"
unfolding lower_unit strip_leading strip_trailing
wanted_ad = refl

entry_found_example :
    (t : Box) × (Box.search panel_config (typed (codes " Ad")) ≡ done t)
    × (t.frame_location
        ≡ page_name panel_config 0 (some 0) ++ b'?' ∷ escape (strip_leading (codes " Ad")))
    × (get_elem? (loaded all_0 (strip_leading (codes " Ad"))).rows 0
        ≡ some (record (entry_row add_entry) { display = block }))
entry_found_example =
    entry_found panel_config (typed (codes " Ad")) 0 0 0 (codes "abcdefghiklmnprstv~") all_pages
      b'a' all_0 add_entry refl refl refl refl refl refl refl (omega arith) (λ e. cc (wanted_ad, e))
      (unfold lower_unit strip_leading strip_trailing in refl)
