-- ===== src/Index/Tables.antt =====
-- docs/html/search/searchdata.js, and the pages of each section in the order of its characters.
use blink_db.Base.{List, [], ◌∷◌, Text, codes}
use blink_db.Search.Build.{Entry}
use blink_db.Index.AllA.{
  all_0, all_1, all_2, all_3, all_4, all_5, all_6, all_7, all_8, all_9, all_a, all_b,
}
use blink_db.Index.AllB.{all_c, all_d, all_e, all_f, all_10, all_11, all_12}
use blink_db.Index.Classes.{
  classes_0, classes_1, classes_2, classes_3, classes_4, classes_5, classes_6, classes_7,
}
use blink_db.Index.Defines.{defines_0, defines_1, defines_2}
use blink_db.Index.Files.{files_0, files_1, files_2, files_3, files_4, files_5, files_6}
use blink_db.Index.FunctionsA.{
  functions_0, functions_1, functions_2, functions_3, functions_4, functions_5, functions_6,
  functions_7, functions_8, functions_9, functions_a, functions_b, functions_c, functions_d,
}
use blink_db.Index.FunctionsB.{functions_e, functions_f, functions_10}
use blink_db.Index.Variables.{
  variables_0, variables_1, variables_2, variables_3, variables_4, variables_5, variables_6,
  variables_7, variables_8, variables_9, variables_a, variables_b, variables_c,
}

abbrev pub index_sections_with_content : List Text
index_sections_with_content =
    codes "abcdefghiklmnprstv~"
    ∷ codes "bcdlnpst"
    ∷ codes "bcdlpst"
    ∷ codes "abcdefghilmnprst~"
    ∷ codes "bcdfhikmnpstv"
    ∷ codes "bms"
    ∷ []

abbrev pub index_section_names : List Text
index_section_names =
    codes "all"
    ∷ codes "classes"
    ∷ codes "files"
    ∷ codes "functions"
    ∷ codes "variables"
    ∷ codes "defines"
    ∷ []

abbrev pub index_section_labels : List Text
index_section_labels =
    codes "All"
    ∷ codes "Classes"
    ∷ codes "Files"
    ∷ codes "Functions"
    ∷ codes "Variables"
    ∷ codes "Macros"
    ∷ []

abbrev pub all_pages : List (List Entry)
all_pages =
    all_0 ∷ all_1 ∷ all_2 ∷ all_3 ∷ all_4 ∷ all_5 ∷ all_6 ∷ all_7 ∷ all_8 ∷ all_9 ∷ all_a ∷ all_b
    ∷ all_c ∷ all_d ∷ all_e ∷ all_f ∷ all_10 ∷ all_11 ∷ all_12 ∷ []

abbrev pub classes_pages : List (List Entry)
classes_pages =
    classes_0 ∷ classes_1 ∷ classes_2 ∷ classes_3 ∷ classes_4 ∷ classes_5 ∷ classes_6 ∷ classes_7
    ∷ []

abbrev pub files_pages : List (List Entry)
files_pages = files_0 ∷ files_1 ∷ files_2 ∷ files_3 ∷ files_4 ∷ files_5 ∷ files_6 ∷ []

abbrev pub functions_pages : List (List Entry)
functions_pages =
    functions_0 ∷ functions_1 ∷ functions_2 ∷ functions_3 ∷ functions_4 ∷ functions_5 ∷ functions_6
    ∷ functions_7 ∷ functions_8 ∷ functions_9 ∷ functions_a ∷ functions_b ∷ functions_c
    ∷ functions_d ∷ functions_e ∷ functions_f ∷ functions_10 ∷ []

abbrev pub variables_pages : List (List Entry)
variables_pages =
    variables_0 ∷ variables_1 ∷ variables_2 ∷ variables_3 ∷ variables_4 ∷ variables_5 ∷ variables_6
    ∷ variables_7 ∷ variables_8 ∷ variables_9 ∷ variables_a ∷ variables_b ∷ variables_c ∷ []

abbrev pub defines_pages : List (List Entry)
defines_pages = defines_0 ∷ defines_1 ∷ defines_2 ∷ []

-- The pages of every section.
abbrev pub index_pages : List (List (List Entry))
index_pages =
    all_pages ∷ classes_pages ∷ files_pages ∷ functions_pages ∷ variables_pages ∷ defines_pages ∷ []
