-- ===== src/Core/Json.antt =====
-- The values of a JSON payload, which the program types as `Any`. An object is its keys in order.
-- `neg n` is the integer -(n + 1). `real sign n` is the float n * 2^-1074, negative if the sign is
-- true; `json.loads` also reads infinities and NaN, which are left out.
use Prim.Native.Nat.{◌^◌}
use bug_free_enigma.Base.{
  ℕ, suc, ◌*◌, String, Bool, true, false, not, ◌&&◌, ◌||◌, Option, none, some, List, [], ◌∷◌, ◌=ℕ◌,
  ◌==◌, if◌then◌else◌,
}

mutual
  pub data Fields : Type 0 where
    end : Fields
    field : String → Value → Fields → Fields

  pub data Items : Type 0 where
    nil : Items
    cons : Value → Items → Items

  pub data Value : Type 0 where
    null : Value
    bool : Bool → Value
    num neg : ℕ → Value
    real : Bool → ℕ → Value
    str : String → Value
    arr : Items → Value
    obj : Fields → Value

-- `d.get(k)`
unfoldable pub member : String → Fields → Option Value
member k end = none
member k (field j v fs) = if j == k then some v else member k fs

-- `d.get(k, default)`
abbrev pub member_or : String → Value → Fields → Value
member_or k default fs = elim (member k fs) [ none ↦ default | some v ↦ v ]

-- `d.get(k)`
abbrev pub member_or_null : String → Fields → Value
member_or_null k fs = member_or k null fs

-- `d.get(k)` where the text is wanted and anything else counts as missing
abbrev pub text_at : String → Fields → Option String
text_at k fs = elim (member k fs) [
  | none ↦ none
  | some v ↦ elim v [
    | null ↦ none
    | bool _ ↦ none
    | num _ ↦ none
    | neg _ ↦ none
    | real _ _ ↦ none
    | str s ↦ some s
    | arr _ ↦ none
    | obj _ ↦ none
  ]
]

-- `d.pop(k, None)`
unfoldable pub without : String → Fields → Fields
without k end = end
without k (field j v fs) = let rest = without k fs in if j == k then rest else field j v rest

-- `list(d)`
abbrev pub keys : Fields → List String
keys end = []
keys (field k _ fs) = k ∷ keys fs

abbrev pub to_items : List String → Items
to_items [] = nil
to_items (s ∷ ss) = cons (str s) (to_items ss)

abbrev pub count : Fields → ℕ
count end = 0
count (field _ _ fs) = suc (count fs)

abbrev as_number : Bool → ℕ
as_number true = 1
as_number false = 0

abbrev holds_of : (Value → Bool) → Option Value → Bool
holds_of p none = false
holds_of p (some v) = p v

-- one in the unit of floats
abbrev float_one : ℕ
float_one = 2 ^ 1074

abbrev same_sign : Bool → Bool → Bool
same_sign true s = s
same_sign false s = not s

-- a float is a whole number of this sign and size; the two zeros are equal
abbrev is_whole : Bool → ℕ → Bool → ℕ → Bool
is_whole sign n negative m = n =ℕ m * float_one && (same_sign sign negative || m =ℕ 0)

-- Python's `==`: a truth value equals 0 or 1, a float equals an integer of its value, and the order of an object's keys does not matter.
unfoldable mutual
  pub value_eq : Value → Value → Bool
  value_eq null null = true
  value_eq (bool a) (bool b) = as_number a =ℕ as_number b
  value_eq (bool a) (num n) = as_number a =ℕ n
  value_eq (num n) (bool b) = n =ℕ as_number b
  value_eq (num m) (num n) = m =ℕ n
  value_eq (neg m) (neg n) = m =ℕ n
  value_eq (real s m) (real t n) = m =ℕ n && (same_sign s t || m =ℕ 0)
  value_eq (real s m) (num n) = is_whole s m false n
  value_eq (num n) (real s m) = is_whole s m false n
  value_eq (real s m) (neg n) = is_whole s m true (suc n)
  value_eq (neg n) (real s m) = is_whole s m true (suc n)
  value_eq (real s m) (bool b) = is_whole s m false (as_number b)
  value_eq (bool b) (real s m) = is_whole s m false (as_number b)
  value_eq (str s) (str t) = s == t
  value_eq (arr xs) (arr ys) = items_eq xs ys
  value_eq (obj fs) (obj gs) = count fs =ℕ count gs && fields_in fs gs
  value_eq _ _ = false

  pub items_eq : Items → Items → Bool
  items_eq nil nil = true
  items_eq (cons x xs) (cons y ys) = value_eq x y && items_eq xs ys
  items_eq _ _ = false

  -- every key of the first object has an equal value in the second
  pub fields_in : Fields → Fields → Bool
  fields_in end gs = true
  fields_in (field k v fs) gs = holds_of (value_eq v) (member k gs) && fields_in fs gs
