-- ===== src/Storage/Files.antt =====
-- The file of lib/persistence_kv_store.h as a list of records.
use blink_db.Base.{
  ◌≤◌, List, [], ◌∷◌, ◌++◌, Option, none, some, false, ◌≡◌, refl, sym, ap, ◌∙◌, ◌⊎◌, arith, Text,
  text_eq, if◌then◌else◌, length, length-append, append_assoc, inl, inr,
}
use blink_db.Storage.{skip_space, read_word, record_text, read_record, read_pair, is_null}
use blink_db.Storage.Reads.{
  IsKey, read_word-key, skip_space-solid, starts_solid-IsKey, last_value, skip_one,
}

-- The records of a file, the first one first.
unfoldable pub texts_of : List (Text × Text) → Text
texts_of [] = []
texts_of (e ∷ es) = record_text e.0 e.1 ++ texts_of es

unfoldable pub reversed : List (Text × Text) → List (Text × Text)
reversed [] = []
reversed (e ∷ es) = reversed es ++ (e ∷ [])

-- Keys and values that are words.
unfoldable pub AllWords : List (Text × Text) → Type 0
AllWords [] = Unit
AllWords (e ∷ es) = IsKey e.0 × IsKey e.1 × AllWords es

-- The value of a key behind some records.
unfoldable pub latest : Text → List (Text × Text) → Option Text → Option Text
latest q [] old = old
latest q (e ∷ es) old = latest q es (if text_eq e.0 q then some e.1 else old)

pub texts_of-append :
    (es fs : List (Text × Text)) → texts_of (es ++ fs) ≡ texts_of es ++ texts_of fs
unfolding texts_of
texts_of-append [] fs = refl
texts_of-append (e ∷ es) fs =
    rw (texts_of-append es fs)
      (sym (append_assoc (record_text e.0 e.1) (texts_of es) (texts_of fs)))

pub latest-append :
    (q : Text) (es fs : List (Text × Text)) (old : Option Text)
    → latest q (es ++ fs) old ≡ latest q fs (latest q es old)
unfolding latest
latest-append q [] fs old = refl
latest-append q (e ∷ es) fs old = latest-append q es fs _

pub AllWords-append : (es fs : List (Text × Text)) → AllWords es → AllWords fs → AllWords (es ++ fs)
unfolding AllWords
AllWords-append [] fs a b = b
AllWords-append (e ∷ es) fs a b = (a.0, a.1, AllWords-append es fs a.2 b)

pub AllWords-reversed : (es : List (Text × Text)) → AllWords es → AllWords (reversed es)
unfolding AllWords reversed
AllWords-reversed [] a = tt
AllWords-reversed (e ∷ es) a =
    AllWords-append (reversed es) (e ∷ []) (AllWords-reversed es a.2) (a.0, a.1, tt)

pub latest-reversed :
    (q : Text) (es : List (Text × Text)) → latest q (reversed es) none ≡ last_value q es
unfolding latest reversed last_value
latest-reversed q [] = refl
latest-reversed q (e ∷ es) =
    latest-append q (reversed es) (e ∷ []) none ∙ rw (latest-reversed q es) refl

-- A file has as many bytes as records.
pub length-texts_of : (es : List (Text × Text)) → length es ≤ length (texts_of es)
unfolding texts_of record_text
length-texts_of [] = omega arith
length-texts_of (e ∷ es) =
    rw
      (
        length-append (e.0 ++ (32 ∷ (e.1 ++ (10 ∷ [])))) (texts_of es),
        length-append e.0 (32 ∷ (e.1 ++ (10 ∷ []))),
      )
      (omega (arith, length-texts_of es))

-- The line end that the stream stands at behind a record.
abbrev pub IsGap : Text → Type 0
IsGap gap = (gap ≡ []) ⊎ (gap ≡ 10 ∷ [])

pub skip_space-gap : (gap s : Text) → IsGap gap → skip_space (gap ++ s) ≡ skip_space s
unfolding skip_space
skip_space-gap gap s (inl e) = rw e refl
skip_space-gap gap s (inr e) = rw e refl

pub record_apart : (k v more : Text) → record_text k v ++ more ≡ k ++ (32 ∷ (v ++ (10 ∷ more)))
unfolding record_text
record_apart k v more =
    append_assoc k (32 ∷ (v ++ (10 ∷ []))) more
    ∙ ap (λ s. k ++ (32 ∷ s)) (append_assoc v (10 ∷ []) more)

pub read_pair-record_text :
    (gap k v more : Text)
    → IsGap gap
    → IsKey k
    → IsKey v
    → read_pair (gap ++ (record_text k v ++ more)) ≡ some ((k, v), 10 ∷ more)
unfolding read_pair
read_pair-record_text gap k v more g hk hv =
    rw
      (
        read_pair,
        record_apart k v more,
        skip_space-gap gap (k ++ (32 ∷ (v ++ (10 ∷ more)))) g,
        skip_space-solid k (32 ∷ (v ++ (10 ∷ more))) (starts_solid-IsKey k hk),
        read_word-key k 32 (v ++ (10 ∷ more)) hk.0 refl,
        skip_one (v ++ (10 ∷ more)),
        skip_space-solid v (10 ∷ more) (starts_solid-IsKey v hv),
        read_word-key v 10 more hv.0 refl,
        not_null k hk,
        not_null v hv,
      )
      refl
  where
    not_null : (s : Text) → IsKey s → is_null s ≡ false
    not_null [] h = absurd (omega (arith, h.1))
    not_null (c ∷ s) h = refl

-- The stream behind a record.
pub moved_on :
    (before gap k v more : Text)
    → before ++ (gap ++ (record_text k v ++ more))
      ≡ (before ++ (gap ++ (k ++ (32 ∷ v)))) ++ (10 ∷ more)
moved_on before gap k v more =
    ap (λ t. before ++ (gap ++ t))
      (record_apart k v more ∙ sym (append_assoc k (32 ∷ v) (10 ∷ more)))
    ∙ ap (λ t. before ++ t) (sym (append_assoc gap (k ++ (32 ∷ v)) (10 ∷ more)))
    ∙ sym (append_assoc before (gap ++ (k ++ (32 ∷ v))) (10 ∷ more))

pub read_pair-end : (gap : Text) → IsGap gap → read_pair (gap ++ []) ≡ none
unfolding read_pair skip_space read_word
read_pair-end gap (inl e) = rw e refl
read_pair-end gap (inr e) = rw e refl

pub read_record-gap : (gap k s : Text) → IsGap gap → read_record k (gap ++ s) ≡ read_record k s
unfolding read_record
read_record-gap gap k s g = rw (skip_space-gap gap s g) refl
