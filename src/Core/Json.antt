-- ===== src/Core/Json.antt =====
-- `nova::json` of Core/include/NovaVPN/Core/Json.h over the JSON library, which stands behind an
-- interface: its values, how they are built, and what reading them returns. `none` stands for the
-- exception that a value of another type raises.
use vpn_client.Prelude.{
  ℕ, ◌^◌, ◌<◌, Bool, true, if◌then◌else◌, Option, none, some, List, [], ◌∷◌, ◌≡◌, refl, Bytes,
  equal, ℤ, pos, negsuc, ltb, ◌-◌,
}

pub record JsonLibrary : Type 1 where
  pub Json : Type 0
  pub object : List (Bytes × Json) → Json
  pub array : List Json → Json
  pub text : Bytes → Json
  pub number : ℕ → Json
  pub integer : ℤ → Json
  pub boolean : Bool → Json
  pub is_object : Json → Bool
  pub is_array : Json → Bool
  pub elements : Json → List Json
  -- `contains` and `at` with the name of a member.
  pub member : Json → Bytes → Option Json
  -- `get<std::string>`, `get` at an unsigned and at a signed type of so many bits,
  -- and `get<bool>`.
  pub as_text : Json → Option Bytes
  pub as_unsigned : ℕ → Json → Option ℕ
  pub as_signed : ℕ → Json → Option ℤ
  pub as_boolean : Json → Option Bool

-- The first value under a name, as in an initialiser list.
unfoldable pub lookup : {A : Type 0} → Bytes → List (Bytes × A) → Option A
lookup name [] = none
lookup name ((key, value) ∷ fields) =
    let rest = lookup name fields in if equal key name then some value else rest

-- The numbers of a signed type of so many bits.
abbrev pub fits : ℕ → ℤ → Bool
fits w (pos n) = ltb n (2 ^ (w - 1))
fits w (negsuc n) = ltb n (2 ^ (w - 1))

pub record IsLawful (L : JsonLibrary) : Type 0 where
  pub is_object-object : (fields : List (Bytes × L.Json)) → L.is_object (L.object fields) ≡ true
  pub is_array-array : (items : List L.Json) → L.is_array (L.array items) ≡ true
  pub elements-array : (items : List L.Json) → L.elements (L.array items) ≡ items
  pub member-object :
      (fields : List (Bytes × L.Json)) (name : Bytes)
      → L.member (L.object fields) name ≡ lookup name fields
  pub as_text-text : (b : Bytes) → L.as_text (L.text b) ≡ some b
  pub as_unsigned-number : (w n : ℕ) → n < 2 ^ w → L.as_unsigned w (L.number n) ≡ some n
  pub as_signed-number : (w n : ℕ) → n < 2 ^ (w - 1) → L.as_signed w (L.number n) ≡ some (pos n)
  pub as_signed-integer : (w : ℕ) (i : ℤ) → fits w i ≡ true → L.as_signed w (L.integer i) ≡ some i
  pub as_boolean-boolean : (b : Bool) → L.as_boolean (L.boolean b) ≡ some b

module _ (L : JsonLibrary) where
  open L use {Json, member}

  -- The value at a pointer such as `/error/code`, given as its names.
  unfoldable pub at_pointer : Json → List Bytes → Option Json
  at_pointer root [] = some root
  at_pointer root (name ∷ names) = elim (member root name) [
    | none ↦ none
    | some value ↦ at_pointer value names
  ]

  -- `json::get`, with the reader of its type.
  unfoldable pub get : {A : Type 0} → (Json → Option A) → Json → List Bytes → A → A
  unfolding at_pointer
  get read root pointer fallback = elim (at_pointer root pointer) [
    | none ↦ fallback
    | some value ↦ elim (read value) [ none ↦ fallback | some a ↦ a ]
  ]

module _ (L : JsonLibrary) (law : IsLawful L) where
  open L use {Json, object}

  -- A field of an object that is read back, and one of an object in it.
  pub get-object :
      {A : Type 0} (read : Json → Option A) (fields : List (Bytes × Json)) (name : Bytes)
      (json : Json) (a fallback : A)
      → lookup name fields ≡ some json
      → read json ≡ some a
      → get L read (object fields) (name ∷ []) fallback ≡ a
  unfolding get at_pointer
  get-object read fields name json a fallback found reads =
      rw (law.member-object fields name, get, at_pointer) (rw found (rw reads refl))

  pub get-object_inner :
      {A : Type 0} (read : Json → Option A) (fields inner : List (Bytes × Json))
      (outer name : Bytes) (json : Json) (a fallback : A)
      → lookup outer fields ≡ some (object inner)
      → lookup name inner ≡ some json
      → read json ≡ some a
      → get L read (object fields) (outer ∷ name ∷ []) fallback ≡ a
  unfolding get at_pointer
  get-object_inner read fields inner outer name json a fallback found inside reads =
      rw (law.member-object fields outer, get, at_pointer)
        (rw found (rw (law.member-object inner name) (rw inside (rw reads refl))))
