-- ===== src/Service/SkillRuns/Input.antt =====
-- `validate_skill_input` of backend/app/skills/runtime.py. The raised
-- texts are those of `SkillRuntimeError`.
use mathlib.Core.Path.{subst}
use bug_free_enigma.Base.{
  ℕ, String, Bool, true, false, not, Option, none, some, [], ◌∷◌, ◌≡◌, refl, sym, ap, ◌∙◌, ◌⊎◌,
  eq_iff, ◌↔◌, inl, inr, arith, Check, ok, err, value_error, raise_if, for_each, for_each-eq-ok,
  ◌==◌, if◌then◌else◌, All, Option-cases,
}
use bug_free_enigma.Base.Dict.{Dict}
use bug_free_enigma.Core.Json.{Value, bool, num, neg, real, str, arr, obj, Items, Fields, member}

abbrev pub is_string : Value → Bool
is_string (str _) = true
is_string _ = false

abbrev pub is_array : Value → Bool
is_array (arr _) = true
is_array _ = false

abbrev pub is_object : Value → Bool
is_object (obj _) = true
is_object _ = false

abbrev pub is_boolean : Value → Bool
is_boolean (bool _) = true
is_boolean _ = false

-- an `int` or a `float`; a truth value is no number here
abbrev pub is_number : Value → Bool
is_number (num _) = true
is_number (neg _) = true
is_number (real _ _) = true
is_number _ = false

-- an `int` alone
abbrev pub is_integer : Value → Bool
is_integer (num _) = true
is_integer (neg _) = true
is_integer _ = false

-- the dictionary `validators`
unfoldable pub validator : String → Option (Value → Bool)
validator type_name =
    if type_name == "string"
    then some is_string
    else if type_name == "array"
    then some is_array
    else if type_name == "object"
    then some is_object
    else if type_name == "boolean"
    then some is_boolean
    else if type_name == "number"
    then some is_number
    else if type_name == "integer"
    then some is_integer
    else none

-- What the type names of a schema mean, by the forms of a JSON value.
pub data HasType : String → Value → Type 0 where
  a_string : (s : String) → HasType "string" (str s)
  an_array : (items : Items) → HasType "array" (arr items)
  an_object : (fields : Fields) → HasType "object" (obj fields)
  a_boolean : (b : Bool) → HasType "boolean" (bool b)
  a_natural_number : (n : ℕ) → HasType "number" (num n)
  a_negative_number : (n : ℕ) → HasType "number" (neg n)
  a_float : (sign : Bool) (n : ℕ) → HasType "number" (real sign n)
  a_natural : (n : ℕ) → HasType "integer" (num n)
  a_negative : (n : ℕ) → HasType "integer" (neg n)

-- the tests on a key that is there
abbrev pub validate_value : String → String → Value → Option (Value → Bool) → Check
validate_value key type_name v none =
    err (value_error "unsupported skill schema type" (type_name ∷ []))
validate_value key type_name v (some accepts) =
    raise_if (not (accepts v))
      (value_error "skill input must be of its type" (key ∷ type_name ∷ []))

-- the body of the loop over the schema
unfoldable pub validate_entry : Fields → String × String → Check
validate_entry payload (key, type_name) = elim (member key payload) [
  | none ↦ err (value_error "missing required skill input" (key ∷ []))
  | some v ↦ validate_value key type_name v (validator type_name)
]

unfoldable pub validate_skill_input : Dict String → Value → Check
validate_skill_input schema (obj payload) = for_each (validate_entry payload) schema
validate_skill_input schema _ = err (value_error "skill input must be an object" [])

-- a type name and a value that the table takes
abbrev Typed : String → Value → Type 0
Typed type_name v =
    (accepts : Value → Bool) × (validator type_name ≡ some accepts) × (accepts v ≡ true)

HasType-Typed : (t : String) (v : Value) → HasType t v → Typed t v
unfolding validator
HasType-Typed _ _ (HasType.a_string s) = (is_string, refl, refl)
HasType-Typed _ _ (HasType.an_array items) = (is_array, refl, refl)
HasType-Typed _ _ (HasType.an_object fields) = (is_object, refl, refl)
HasType-Typed _ _ (HasType.a_boolean b) = (is_boolean, refl, refl)
HasType-Typed _ _ (HasType.a_natural_number n) = (is_number, refl, refl)
HasType-Typed _ _ (HasType.a_negative_number n) = (is_number, refl, refl)
HasType-Typed _ _ (HasType.a_float sign n) = (is_number, refl, refl)
HasType-Typed _ _ (HasType.a_natural n) = (is_integer, refl, refl)
HasType-Typed _ _ (HasType.a_negative n) = (is_integer, refl, refl)

if_some :
    {A : Type 0} (b : Bool) {t : A} {e : Option A} {r : A}
    → (if b then some t else e) ≡ some r
    → ((b ≡ true) × (t ≡ r)) ⊎ (e ≡ some r)
if_some true h = inl (refl, ground arith)
if_some false h = inr h

string_fits : (v : Value) → is_string v ≡ true → HasType "string" v
string_fits (str s) h = HasType.a_string s
string_fits _ h = absurd (cc)

array_fits : (v : Value) → is_array v ≡ true → HasType "array" v
array_fits (arr items) h = HasType.an_array items
array_fits _ h = absurd (cc)

object_fits : (v : Value) → is_object v ≡ true → HasType "object" v
object_fits (obj fields) h = HasType.an_object fields
object_fits _ h = absurd (cc)

boolean_fits : (v : Value) → is_boolean v ≡ true → HasType "boolean" v
boolean_fits (bool b) h = HasType.a_boolean b
boolean_fits _ h = absurd (cc)

number_fits : (v : Value) → is_number v ≡ true → HasType "number" v
number_fits (num n) h = HasType.a_natural_number n
number_fits (neg n) h = HasType.a_negative_number n
number_fits (real sign n) h = HasType.a_float sign n
number_fits _ h = absurd (cc)

integer_fits : (v : Value) → is_integer v ≡ true → HasType "integer" v
integer_fits (num n) h = HasType.a_natural n
integer_fits (neg n) h = HasType.a_negative n
integer_fits _ h = absurd (cc)

-- a value that the test of a name takes has the type of that name
fits_name :
    (name t : String) (v : Value) (test accepts : Value → Bool)
    → ((v : Value) → test v ≡ true → HasType name v)
    → (t == name) ≡ true
    → test ≡ accepts
    → accepts v ≡ true
    → HasType t v
fits_name name t v test accepts fits named same h =
    subst (λ u. HasType u v) (sym ((eq_iff t name).0 named)) (fits v (ap (λ f. f v) same ∙ h))

Typed-HasType : (t : String) (v : Value) → Typed t v → HasType t v
unfolding validator
Typed-HasType t v (accepts, known, h) = elim (if_some (t == "string") known) [
  | inl (e, same) ↦ fits_name "string" t v is_string accepts string_fits e same h
  | inr known1 ↦ elim (if_some (t == "array") known1) [
    | inl (e, same) ↦ fits_name "array" t v is_array accepts array_fits e same h
    | inr known2 ↦ elim (if_some (t == "object") known2) [
      | inl (e, same) ↦ fits_name "object" t v is_object accepts object_fits e same h
      | inr known3 ↦ elim (if_some (t == "boolean") known3) [
        | inl (e, same) ↦ fits_name "boolean" t v is_boolean accepts boolean_fits e same h
        | inr known4 ↦ elim (if_some (t == "number") known4) [
          | inl (e, same) ↦ fits_name "number" t v is_number accepts number_fits e same h
          | inr known5 ↦ elim (if_some (t == "integer") known5) [
            | inl (e, same) ↦ fits_name "integer" t v is_integer accepts integer_fits e same h
            | inr known6 ↦ absurd (ground arith)
          ]
        ]
      ]
    ]
  ]
]

module _ (payload : Fields) where
  -- The payload has a value of the entry's type.
  abbrev pub Conforms : String × String → Type 0
  Conforms (key, type_name) = (v : Value) × (member key payload ≡ some v) × HasType type_name v

  validate_entry-Conforms : (e : String × String) → validate_entry payload e ≡ ok tt → Conforms e
  unfolding validate_entry
  validate_entry-Conforms (key, type_name) h = elim (Option-cases (member key payload)) [
    | inl missing ↦ absurd (ground arith)
    | inr (v, e) ↦ elim (Option-cases (validator type_name)) [
      | inl unknown ↦ absurd (ground arith)
      | inr (accepts, k) ↦ (v, e, Typed-HasType type_name v (accepts, k, ground arith))
    ]
  ]

  Conforms-validate_entry : (e : String × String) → Conforms e → validate_entry payload e ≡ ok tt
  unfolding validate_entry
  Conforms-validate_entry (key, type_name) (v, e, typed) =
      let (accepts, k, fits) = HasType-Typed type_name v typed in
      let valued : validate_entry payload (key, type_name)
          ≡ validate_value key type_name v (validator type_name) =
        ground arith in
      let taken : validate_value key type_name v (validator type_name) ≡ ok tt =
        rw k (rw fits refl) in
      valued ∙ taken

  All-iff :
      (schema : Dict String)
      → (All (λ e. validate_entry payload e ≡ ok tt) schema) ↔ (All Conforms schema)
  All-iff [] = (λ h. tt, λ h. tt)
  All-iff (e ∷ schema) =
      let rest = All-iff schema in
      (
        λ h. (validate_entry-Conforms e h.0, rest.0 h.1),
        λ h. (Conforms-validate_entry e h.0, rest.1 h.1),
      )

-- The payload is an object with a value of its type for every entry of the schema.
abbrev pub Fits : Dict String → Value → Type 0
Fits schema payload = (fields : Fields) × (payload ≡ obj fields) × All (Conforms fields) schema

object_exact :
    (schema : Dict String) (fields : Fields)
    → (validate_skill_input schema (obj fields) ≡ ok tt) ↔ All (Conforms fields) schema
unfolding validate_skill_input
object_exact schema fields =
    let loop = for_each-eq-ok (validate_entry fields) schema in
    let each = All-iff fields schema in (λ h. each.0 (loop.0 h), λ h. loop.1 (each.1 h))

Fits-accepted :
    (schema : Dict String) (payload : Value)
    → Fits schema payload
    → validate_skill_input schema payload ≡ ok tt
Fits-accepted schema payload (fields, same, all) =
    ap (validate_skill_input schema) same ∙ (object_exact schema fields).1 all

accepted-Fits :
    (schema : Dict String) (payload : Value)
    → validate_skill_input schema payload ≡ ok tt
    → Fits schema payload
unfolding validate_skill_input
accepted-Fits schema (obj fields) h = (fields, refl, (object_exact schema fields).0 h)
accepted-Fits schema _ h = absurd (cc)

-- The check raises nothing exactly when the payload is an object that has, for every entry of the
-- schema, a value of the entry's type, by the form of the value: `number` takes integers and floats,
-- `integer` integers alone, neither a truth value, and a type of another name takes nothing.
pub validate_skill_input-exact :
    (schema : Dict String) (payload : Value)
    → (validate_skill_input schema payload ≡ ok tt) ↔ Fits schema payload
validate_skill_input-exact schema payload =
    (accepted-Fits schema payload, Fits-accepted schema payload)
