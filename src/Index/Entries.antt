-- ===== src/Index/Entries.antt =====
-- How the tables of the index are written down.
use Prim.Native.String.{String}
use blink_db.Base.{List, Bool, codes}
use blink_db.Search.Build.{Target, Entry}

-- `[url, in_parent, scope]`
abbrev pub target : String → Bool → String → Target
target url in_parent scope = record { url = codes url; in_parent = in_parent; scope = codes scope }

-- `[id, [name, target, …]]`
abbrev pub entry : String → String → Target → List Target → Entry
entry id name first more = record { id = codes id; name = codes name; target = first; more = more }
