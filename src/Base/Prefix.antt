-- ===== src/Base/Prefix.antt =====
-- Prefixes of texts: a test that decides them, and the relation.
use mathlib.Core.Bool.{Bool, true, false, ◌&&◌}
use mathlib.Core.List.{[], ◌∷◌, ◌++◌}
use mathlib.Core.Path.{◌≡◌, refl}
use native.Mathlib.Omega.{arith}
use blink_db.Base.Tests.{Text, ◌==◌}

-- `t.startsWith(s)`
abbrev pub starts_with : Text → Text → Bool
starts_with [] t = true
starts_with (x ∷ s) [] = false
starts_with (x ∷ s) (y ∷ t) = (x == y) && starts_with s t

abbrev pub IsPrefix : Text → Text → Type 0
IsPrefix s t = (r : Text) × (t ≡ s ++ r)

pub starts_with_sound : (s t : Text) → starts_with s t ≡ true → IsPrefix s t
starts_with_sound [] t h = (t, refl)
starts_with_sound (x ∷ s) [] h = cc
starts_with_sound (x ∷ s) (y ∷ t) h =
    let (r, e) = starts_with_sound s t (ground arith) in (r, ground arith)

pub starts_with-append : (s r : Text) → starts_with s (s ++ r) ≡ true
starts_with-append [] r = refl
starts_with-append (x ∷ s) r = ground (arith, starts_with-append s r)

pub starts_with_complete : (s t : Text) → IsPrefix s t → starts_with s t ≡ true
starts_with_complete s t (r, e) = rw e (starts_with-append s r)

pub starts_with-append_right :
    (s t r : Text) → starts_with s t ≡ true → starts_with s (t ++ r) ≡ true
starts_with-append_right [] t r h = refl
starts_with-append_right (x ∷ s) [] r h = cc
starts_with-append_right (x ∷ s) (y ∷ t) r h = ground (arith, starts_with-append_right s t r)
