-- ===== src/Auth/Hex.antt =====
-- `bytes.hex` and `bytes.fromhex`, which backend/app/auth/passwords.py writes salts and digests
-- with. A byte is a number below 256.
use Prim.Native.Char.{Char, code}
use bug_free_enigma.Base.{
  all, ℕ, zero, suc, ◌+◌, ◌-◌, ◌*◌, ◌/◌, ◌%◌, ◌<◌, String, Bool, true, false, not, ◌&&◌, ◌||◌,
  Option, none, some, List, [], ◌∷◌, ◌≡◌, refl, ◌∙◌, arith, leb, ◌=ℕ◌, if◌then◌else◌, All,
}
use mathlib.Core.Option

abbrev pub IsByte : ℕ → Type 0
IsByte b = b < 256

unfoldable pub hex_digit : ℕ → Char
hex_digit n =
    if n =ℕ 0
    then "0"
    else if n =ℕ 1
    then "1"
    else if n =ℕ 2
    then "2"
    else if n =ℕ 3
    then "3"
    else if n =ℕ 4
    then "4"
    else if n =ℕ 5
    then "5"
    else if n =ℕ 6
    then "6"
    else if n =ℕ 7
    then "7"
    else if n =ℕ 8
    then "8"
    else if n =ℕ 9
    then "9"
    else if n =ℕ 10
    then "a"
    else if n =ℕ 11
    then "b"
    else if n =ℕ 12
    then "c"
    else if n =ℕ 13
    then "d"
    else if n =ℕ 14
    then "e"
    else "f"

-- `b.hex()`
unfoldable pub hex : List ℕ → String
hex [] = String.[]
hex (b ∷ bytes) = String.◌∷◌ (hex_digit (b / 16)) (String.◌∷◌ (hex_digit (b % 16)) (hex bytes))

-- the value of a hexadecimal digit, in either case
unfoldable pub digit_value : ℕ → Option ℕ
digit_value c =
    if leb 48 c && leb c 57
    then some (c - 48)
    else if leb 97 c && leb c 102
    then some (c - 87)
    else if leb 65 c && leb c 70
    then some (c - 55)
    else none

-- ASCII white space, which may stand between two bytes
abbrev is_ascii_space : ℕ → Bool
is_ascii_space c = c =ℕ 32 || leb 9 c && leb c 13

-- the rest of the bytes, behind the first digit of a byte if there is one
unfoldable pub bytes_after : Option ℕ → String → Option (List ℕ)
bytes_after none String.[] = some []
bytes_after (some high) String.[] = none
bytes_after none (String.◌∷◌ c s) =
    let skipped = bytes_after none s in
    if is_ascii_space (code c)
    then skipped
    else elim (digit_value (code c)) [ none ↦ none | some high ↦ bytes_after (some high) s ]
bytes_after (some high) (String.◌∷◌ c s) = elim (digit_value (code c)) [
  | none ↦ none
  | some low ↦ Option.map (λ bytes. (high * 16 + low) ∷ bytes) (bytes_after none s)
]

-- `bytes.fromhex(s)`; `none` is a `ValueError`
unfoldable pub from_hex : String → Option (List ℕ)
from_hex s = bytes_after none s

-- the numbers below a bound
counting : ℕ → List ℕ
counting zero = []
counting (suc m) = m ∷ counting m

all-counting :
    (bound : ℕ) (p : ℕ → Bool) {n : ℕ} → n < bound → all p (counting bound) ≡ true → p n ≡ true
unfolding counting
all-counting zero p less tested = absurd (omega arith)
all-counting (suc m) p {n} less tested = ground (arith, all-counting m p {n = n})

abbrev reads : ℕ → ℕ → Bool
reads c n = elim (digit_value c) [ none ↦ false | some m ↦ m =ℕ n ]

-- a digit that is read back, and is neither white space nor a dollar sign
abbrev is_plain_digit : ℕ → Bool
is_plain_digit n =
    let c = code (hex_digit n) in reads c n && (not (is_ascii_space c) && not (c =ℕ 36))

plain_digits : all is_plain_digit (counting 16) ≡ true
unfolding counting hex_digit digit_value
plain_digits = refl

plain_digit :
    (n : ℕ)
    → n < 16
    → (digit_value (code (hex_digit n)) ≡ some n)
      × (is_ascii_space (code (hex_digit n)) ≡ false)
      × ((code (hex_digit n) =ℕ 36) ≡ false)
plain_digit n h = ground (arith, all-counting 16 is_plain_digit h plain_digits)

start_byte :
    (c : Char) (s : String) (high : ℕ)
    → is_ascii_space (code c) ≡ false
    → digit_value (code c) ≡ some high
    → bytes_after none (String.◌∷◌ c s) ≡ bytes_after (some high) s
unfolding bytes_after
start_byte c s high h e = rw (h, e) refl

end_byte :
    (c : Char) (s : String) (high low : ℕ)
    → digit_value (code c) ≡ some low
    → bytes_after (some high) (String.◌∷◌ c s)
      ≡ Option.map (λ bytes. (high * 16 + low) ∷ bytes) (bytes_after none s)
unfolding bytes_after
end_byte c s high low e = rw (e, bytes_after) refl

from_hex_nil : bytes_after none String.[] ≡ some []
unfolding bytes_after
from_hex_nil = refl

both_digits : (b : ℕ) → (b / 16) * 16 + b % 16 ≡ b
both_digits b = omega arith

-- Bytes survive being written and read.
pub from_hex-hex : (bytes : List ℕ) → All IsByte bytes → from_hex (hex bytes) ≡ some bytes
unfolding from_hex hex
from_hex-hex [] h = from_hex_nil
from_hex-hex (b ∷ bytes) h =
    let high = plain_digit (b / 16) (omega arith) in
    let low = plain_digit (b % 16) (omega arith) in
    start_byte (hex_digit (b / 16)) _ (b / 16) high.1 high.0
    ∙ (end_byte (hex_digit (b % 16)) (hex bytes) (b / 16) (b % 16) low.0
        ∙ rw (from_hex-hex bytes h.1, both_digits b) refl)

-- No dollar sign stands in a text.
unfoldable pub has_dollar : String → Bool
has_dollar String.[] = false
has_dollar (String.◌∷◌ c s) = code c =ℕ 36 || has_dollar s

pub hex-no_dollar : (bytes : List ℕ) → All IsByte bytes → has_dollar (hex bytes) ≡ false
unfolding has_dollar hex
hex-no_dollar [] h = refl
hex-no_dollar (b ∷ bytes) h =
    rw
      (
        (plain_digit (b / 16) (omega arith)).2,
        (plain_digit (b % 16) (omega arith)).2,
        hex-no_dollar bytes h.1,
      )
      refl
