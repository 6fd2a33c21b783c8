-- ===== src/Sections/Fold.antt =====
-- Sections and inherited members folded and unfolded, docs/html/dynsections.js.
use blink_db.Base.{
  ◌-◌, [], ◌∷◌, ◌++◌, map, Bool, true, false, not, ◌≡◌, refl, arith, Text, codes, length,
  length-append, take, if◌then◌else◌, List,
}
use blink_db.Sections.{
  with_image, Section, toggle_visibility, Inherit, first_visible, toggle_inherit,
}

take-append : (s r : Text) → take (length s) (s ++ r) ≡ s
take-append [] r = refl
take-append (c ∷ s) r = rw (take-append s r) refl

-- The name of an image behind a path is replaced.
with_image-append : (path old new : Text) → with_image (length old) new (path ++ old) ≡ path ++ new
unfolding with_image
with_image-append path old new =
    let back : length (path ++ old) - length old ≡ length path =
      rw (length-append path old) (omega arith) in
    rw (back, take-append path old) refl

-- A section that is open, or one that is not, with the images behind `path`.
abbrev pub section : Text → Bool → Section
section path o = record {
  content_visible = o;
  summary_visible = not o;
  opened = o;
  closed = not o;
  src = path ++ (if o then codes "open.png" else codes "closed.png");
}

-- `toggleVisibility` closes an open section and opens a closed one: the content, the summary, the
-- classes of the header and the image all change together, and no path before the image's name is
-- touched.
pub toggle_visibility_lem :
    (path : Text) (o : Bool) → toggle_visibility (section path o) ≡ section path (not o)
unfolding toggle_visibility
toggle_visibility_lem path true = rw (with_image-append path (codes "open.png")) refl
toggle_visibility_lem path false = rw (with_image-append path (codes "closed.png")) refl

map-const :
    {A : Type 0} (o v : Bool) (vs : List A) → map (λ u. v) (map (λ u. o) vs) ≡ map (λ u. v) vs
map-const o v [] = refl
map-const o v (u ∷ vs) = rw (map-const o v vs) refl

-- Inherited members, all displayed or all hidden, with the image behind `path`.
abbrev pub members {ℓ} : {A : Type ℓ} → Text → Bool → List A → Inherit
members path o ms = record {
  rows = map (λ m. o) ms;
  src = path ++ (if o then codes "open.png" else codes "closed.png");
}

-- `toggleInherit` hides the members of a class that are displayed and displays those that are hidden,
-- all of them and the image with them. There is one member at least.
pub toggle_inherit_lem :
    {A : Type 0} (path : Text) (o : Bool) (m : A) (ms : List A)
    → toggle_inherit (members path o (m ∷ ms)) ≡ members path (not o) (m ∷ ms)
unfolding toggle_inherit first_visible
toggle_inherit_lem path true m ms =
    rw (with_image-append path (codes "open.png"), map-const true false ms) refl
toggle_inherit_lem path false m ms =
    rw (with_image-append path (codes "closed.png"), map-const false true ms) refl
