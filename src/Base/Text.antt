-- ===== src/Base/Text.antt =====
-- `str.strip`, and the white space that it takes off (`str.isspace` of Python's Unicode tables).
use Prim.Native.Nat.{ℕ, zero, suc, ◌/◌, ◌%◌}
use Prim.Native.Char.{code}
use Prim.Native.String.{String, ◌++◌}
use mathlib.Core.Path.{◌≡◌, refl}
use mathlib.Core.Bool.{Bool, true, ◌&&◌, ◌||◌}
use mathlib.Core.List.{List, [], ◌∷◌}
use mathlib.Core.Option.{Option, none, some}
use bug_free_enigma.Base.Tests.{leb, ◌=ℕ◌, ◌==◌, if◌then◌else◌}

abbrev pub is_space_code : ℕ → Bool
is_space_code c =
    leb 9 c && leb c 13
    || leb 28 c && leb c 32
    || c =ℕ 0x85
    || c =ℕ 0xa0
    || c =ℕ 0x1680
    || leb 0x2000 c && leb c 0x200a
    || c =ℕ 0x2028
    || c =ℕ 0x2029
    || c =ℕ 0x202f
    || c =ℕ 0x205f
    || c =ℕ 0x3000

-- `not s.strip()`
unfoldable pub is_blank : String → Bool
is_blank String.[] = true
is_blank (String.◌∷◌ c s) = is_space_code (code c) && is_blank s

lstrip : String → String
lstrip String.[] = String.[]
lstrip (String.◌∷◌ c s) =
    let rest = lstrip s in if is_space_code (code c) then rest else String.◌∷◌ c s

rstrip : String → String
unfolding is_blank
rstrip String.[] = String.[]
rstrip (String.◌∷◌ c s) =
    let rest = rstrip s in if is_blank (String.◌∷◌ c s) then String.[] else String.◌∷◌ c rest

-- `s.strip()`
unfoldable pub strip : String → String
unfolding lstrip rstrip
strip s = rstrip (lstrip s)

strip_both_ends : strip "  weekly report \n" ≡ "weekly report"
unfolding strip
strip_both_ends = refl

-- `+` on texts
infixl 65 ◌<>◌
abbrev pub ◌<>◌ : String → String → String
s <> t = s ++ t

abbrev digit : ℕ → String
digit n =
    if n =ℕ 0
    then "0"
    else if n =ℕ 1
    then "1"
    else if n =ℕ 2
    then "2"
    else if n =ℕ 3
    then "3"
    else if n =ℕ 4
    then "4"
    else if n =ℕ 5
    then "5"
    else if n =ℕ 6
    then "6"
    else if n =ℕ 7
    then "7"
    else if n =ℕ 8
    then "8"
    else "9"

show_from : ℕ → ℕ → String → String
show_from zero n text = text
show_from (suc fuel) n text =
    let rest = show_from fuel (n / 10) (digit (n % 10) <> text) in
    if n / 10 =ℕ 0 then digit (n % 10) <> text else rest

-- `str(n)`: a number has no more digits than its value plus one
unfoldable pub show : ℕ → String
unfolding show_from
show n = show_from (suc n) n ""

show_number : show 1204 ≡ "1204"
unfolding show
show_number = refl

-- `s[:n]`
unfoldable pub prefix : ℕ → String → String
prefix zero s = String.[]
prefix (suc n) String.[] = String.[]
prefix (suc n) (String.◌∷◌ c s) = String.◌∷◌ c (prefix n s)

-- the words that a text starts with, where `word` has been read of the first
words_after : String → String → List String
words_after word String.[] = if word == "" then [] else word ∷ []
words_after word (String.◌∷◌ c s) =
    let fresh = words_after "" s in
    let longer = words_after (word <> String.◌∷◌ c String.[]) s in
    if is_space_code (code c) then (if word == "" then fresh else word ∷ fresh) else longer

-- `s.split()`
unfoldable pub words : String → List String
unfolding words_after
words s = words_after "" s

-- `separator.join(texts)`
unfoldable pub join : String → List String → String
join separator [] = ""
join separator (s ∷ []) = s
join separator (s ∷ t ∷ texts) = s <> separator <> join separator (t ∷ texts)

words_joined : join " " (words "  two\n words ") ≡ "two words"
unfolding words join
words_joined = refl

-- `value or fallback`, where the value is an optional text
abbrev pub text_or : String → Option String → String
text_or fallback none = fallback
text_or fallback (some s) = if s == "" then fallback else s
