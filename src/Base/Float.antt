-- ===== src/Base/Float.antt =====
-- The doubles of Python that are not negative, in units of 2^-1074: every such double is a whole
-- number of them. Infinities are left out: no amount of the program comes near 2^1024.
use Prim.Native.Nat.{ℕ, ◌+◌, ◌-◌, ◌*◌, ◌/◌, ◌%◌, ◌^◌}
use bug_free_enigma.Base.Tests.{ltb, leb, ◌=ℕ◌, if◌then◌else◌}
use mathlib.Core.List.{List, [], ◌∷◌}

-- the double 1.0
abbrev pub one : ℕ
one = 2 ^ 1074

-- the whole number nearest to a quotient, the even one of two
abbrev half_even : ℕ → ℕ → ℕ
half_even p q =
    let k = p / q in
    let twice = 2 * (p % q) in k + (if ltb q twice then 1 else if twice =ℕ q then k % 2 else 0)

-- the bits of a number, by descending powers of two
unfoldable pub bits : List ℕ → ℕ → ℕ
bits [] n = n
bits (k ∷ ks) n =
    let big = leb (2 ^ k) n in
    let rest = bits ks (if big then n / 2 ^ k else n) in if big then k + rest else rest

abbrev powers : List ℕ
powers = 2048 ∷ 1024 ∷ 512 ∷ 256 ∷ 128 ∷ 64 ∷ 32 ∷ 16 ∷ 8 ∷ 4 ∷ 2 ∷ 1 ∷ []

-- The double nearest to a quotient of units, with 53 bits, the even one of two.
unfoldable pub nearest : ℕ → ℕ → ℕ
unfolding bits
nearest p q = let step = 2 ^ (bits powers (p / q) - 53) in half_even p (q * step) * step

-- the double of an amount in billionths
unfoldable pub double : ℕ → ℕ
double billionths = nearest (billionths * one) 1000000000

-- `n * x` of an integer, and `x + y`
unfoldable pub scaled : ℕ → ℕ → ℕ
scaled n x = nearest (n * x) 1

unfoldable pub plus : ℕ → ℕ → ℕ
plus x y = nearest (x + y) 1

-- `max(0, x - y)`
unfoldable pub minus : ℕ → ℕ → ℕ
minus x y = nearest (x - y) 1

-- `int(x / y)`
unfoldable pub int_quotient : ℕ → ℕ → ℕ
int_quotient x y = nearest (x * one) y / one

-- `round(x, 9)`, in billionths
unfoldable pub round_9 : ℕ → ℕ
round_9 x = half_even (x * 1000000000) one
