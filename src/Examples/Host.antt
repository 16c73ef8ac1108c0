-- ===== src/Examples/Host.antt =====
-- A JSON library to run the programs with.
use vpn_client.Prelude.{
  ℕ, ◌-◌, ◌^◌, Bool, true, false, ltb, if◌then◌else◌, Option, none, some, List, [], ◌∷◌, ◌≡◌, refl,
  ap, Bytes, equal, lt→ltb, ℤ, pos,
}
use vpn_client.Core.Json
use vpn_client.Core.Json.{JsonLibrary, lookup, fits}

-- The fields of an object, and the elements of an array, as chains.
pub data Document : Type 0 where
  empty_object empty_array : Document
  field : Bytes → Document → Document → Document
  item : Document → Document → Document
  string : Bytes → Document
  count : ℕ → Document
  whole : ℤ → Document
  flag : Bool → Document

abbrev fields_of : List (Bytes × Document) → Document
fields_of [] = empty_object
fields_of ((name, d) ∷ fields) = field name d (fields_of fields)

abbrev items_of : List Document → Document
items_of [] = empty_array
items_of (d ∷ items) = item d (items_of items)

abbrev object_test : Document → Bool
object_test empty_object = true
object_test (field name d rest) = true
object_test _ = false

abbrev array_test : Document → Bool
array_test empty_array = true
array_test (item d rest) = true
array_test _ = false

abbrev items : Document → List Document
items (item d rest) = d ∷ items rest
items _ = []

abbrev field_of : Document → Bytes → Option Document
field_of (field key d rest) name =
    let other = field_of rest name in if equal key name then some d else other
field_of _ name = none

abbrev string_of : Document → Option Bytes
string_of (string b) = some b
string_of _ = none

abbrev count_of : ℕ → Document → Option ℕ
count_of w (count n) = if ltb n (2 ^ w) then some n else none
count_of w _ = none

abbrev int_of : ℕ → Document → Option ℤ
int_of w (count n) = if ltb n (2 ^ (w - 1)) then some (pos n) else none
int_of w (whole i) = if fits w i then some i else none
int_of w _ = none

abbrev flag_of : Document → Option Bool
flag_of (flag b) = some b
flag_of _ = none

abbrev pub documents : JsonLibrary
documents = record {
  Json = Document;
  object = fields_of;
  array = items_of;
  text = string;
  number = count;
  integer = whole;
  boolean = flag;
  is_object = object_test;
  is_array = array_test;
  elements = items;
  member = field_of;
  as_text = string_of;
  as_unsigned = count_of;
  as_signed = int_of;
  as_boolean = flag_of;
}

object_test-fields_of : (fields : List (Bytes × Document)) → object_test (fields_of fields) ≡ true
object_test-fields_of [] = refl
object_test-fields_of (f ∷ fields) = refl

array_test-items_of : (ds : List Document) → array_test (items_of ds) ≡ true
array_test-items_of [] = refl
array_test-items_of (d ∷ ds) = refl

items-items_of : (ds : List Document) → items (items_of ds) ≡ ds
items-items_of [] = refl
items-items_of (d ∷ ds) = ap (λ rest. d ∷ rest) (items-items_of ds)

field_of-fields_of :
    (fields : List (Bytes × Document)) (name : Bytes)
    → field_of (fields_of fields) name ≡ lookup name fields
unfolding lookup
field_of-fields_of [] name = refl
field_of-fields_of ((key, d) ∷ fields) name =
    ap (λ other. if equal key name then some d else other) (field_of-fields_of fields name)

pub documents-IsLawful : Json.IsLawful documents
documents-IsLawful = record {
  is_object-object = object_test-fields_of;
  is_array-array = array_test-items_of;
  elements-array = items-items_of;
  member-object = field_of-fields_of;
  as_text-text = λ b. refl;
  as_unsigned-number = λ w n h. rw (lt→ltb n (2 ^ w) h) refl;
  as_signed-number = λ w n h. rw (lt→ltb n (2 ^ (w - 1)) h) refl;
  as_signed-integer = λ w i h. rw (h) refl;
  as_boolean-boolean = λ b. refl;
}
