-- ===== src/Menu/PartA.antt =====
-- The menu in bin/part-a/docs/html/menudata.js.
use blink_db.Base.{[], ◌∷◌}
use blink_db.Menu.{Menu, leaf, link, list}

abbrev pub menudata_part_a : Menu
menudata_part_a = list (
    link "Main Page" "index.html" leaf
    ∷ link "Classes" "annotated.html" (
        list (
          link "Class List" "annotated.html" leaf
          ∷ link "Class Index" "classes.html" leaf
          ∷ link "Class Members" "functions.html" (
              list (
                link "All" "functions.html" (
                  list (
                    link "a" "functions.html#index_a" leaf
                    ∷ link "b" "functions.html#index_b" leaf
                    ∷ link "c" "functions.html#index_c" leaf
                    ∷ link "d" "functions.html#index_d" leaf
                    ∷ link "e" "functions.html#index_e" leaf
                    ∷ link "f" "functions.html#index_f" leaf
                    ∷ link "g" "functions.html#index_g" leaf
                    ∷ link "h" "functions.html#index_h" leaf
                    ∷ link "i" "functions.html#index_i" leaf
                    ∷ link "k" "functions.html#index_k" leaf
                    ∷ link "l" "functions.html#index_l" leaf
                    ∷ link "m" "functions.html#index_m" leaf
                    ∷ link "n" "functions.html#index_n" leaf
                    ∷ link "p" "functions.html#index_p" leaf
                    ∷ link "r" "functions.html#index_r" leaf
                    ∷ link "s" "functions.html#index_s" leaf
                    ∷ link "t" "functions.html#index_t" leaf
                    ∷ link "u" "functions.html#index_u" leaf
                    ∷ link "v" "functions.html#index_v" leaf
                    ∷ link "~" "functions.html#index__7E" leaf
                    ∷ []))
                ∷ link "Functions" "functions_func.html" (
                    list (
                      link "a" "functions_func.html#index_a" leaf
                      ∷ link "b" "functions_func.html#index_b" leaf
                      ∷ link "c" "functions_func.html#index_c" leaf
                      ∷ link "d" "functions_func.html#index_d" leaf
                      ∷ link "e" "functions_func.html#index_e" leaf
                      ∷ link "f" "functions_func.html#index_f" leaf
                      ∷ link "g" "functions_func.html#index_g" leaf
                      ∷ link "i" "functions_func.html#index_i" leaf
                      ∷ link "l" "functions_func.html#index_l" leaf
                      ∷ link "m" "functions_func.html#index_m" leaf
                      ∷ link "n" "functions_func.html#index_n" leaf
                      ∷ link "p" "functions_func.html#index_p" leaf
                      ∷ link "r" "functions_func.html#index_r" leaf
                      ∷ link "s" "functions_func.html#index_s" leaf
                      ∷ link "t" "functions_func.html#index_t" leaf
                      ∷ link "~" "functions_func.html#index__7E" leaf
                      ∷ []))
                ∷ link "Variables" "functions_vars.html" leaf
                ∷ []))
          ∷ []))
    ∷ link "Files" "files.html" (
        list (
          link "File List" "files.html" leaf
          ∷ link "File Members" "globals.html" (
              list
                (link "All" "globals.html" leaf ∷ link "Functions" "globals_func.html" leaf ∷ []))
          ∷ []))
    ∷ [])
