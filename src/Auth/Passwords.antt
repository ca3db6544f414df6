-- ===== src/Auth/Passwords.antt =====
-- backend/app/auth/passwords.py. `hashlib.pbkdf2_hmac` with SHA-256 and Python's `int` of a text are
-- given; the salt that `secrets.token_bytes` draws is an argument.
pub mod Laws
use mathlib.Core.Path.{subst}
use Prim.Native.Char.{Char, code}
use text.Mathlib.TextLemmas.{nil-append, cons-append}
use bug_free_enigma.Base.{
  ℕ, String, Bool, true, false, not, Option, none, some, List, [], ◌∷◌, ◌≡◌, refl, sym, ◌∙◌, ap,
  inl, inr, Outcome-cases, arith, ◌=ℕ◌, ◌==◌, if◌then◌else◌, All, Outcome, ok, ◌>>=◌, >>=-eq-ok,
  ◌↔◌, ◌&&◌,
}
use bug_free_enigma.Base.Int.{ℤ, pos}
use bug_free_enigma.Base.Text.{◌<>◌, show}
use bug_free_enigma.Auth.Hex.{IsByte, hex, from_hex, from_hex-hex, has_dollar, hex-no_dollar}

pub record Hashing : Type 0 where
  -- the digest of a password under a salt after so many iterations
  pub pbkdf2 : String → List ℕ → ℤ → Outcome (List ℕ)
  -- `int(text)`; `none` is a `ValueError`
  pub int_of : String → Option ℤ

abbrev pub pbkdf2_iterations : ℕ
pbkdf2_iterations = 200000

unfoldable pub bytes_eq : List ℕ → List ℕ → Bool
bytes_eq [] [] = true
bytes_eq (a ∷ xs) (b ∷ ys) = a =ℕ b && bytes_eq xs ys
bytes_eq _ _ = false

-- what stands before the first dollar sign, and what behind it
unfoldable pub cut_at_dollar : String → Option (String × String)
cut_at_dollar String.[] = none
cut_at_dollar (String.◌∷◌ c s) =
    let rest = cut_at_dollar s in
    if code c =ℕ 36
    then some (String.[], s)
    else elim rest [ none ↦ none | some (before, after) ↦ some (String.◌∷◌ c before, after) ]

-- the four parts of `stored_hash.split("$", 3)`
pub record HashParts : Type 0 where
  pub algorithm : String
  pub iterations_text : String
  pub salt_hex : String
  pub digest_hex : String

unfoldable pub split_hash : String → Option HashParts
split_hash stored = elim (cut_at_dollar stored) [
  | none ↦ none
  | some (algorithm, behind) ↦ elim (cut_at_dollar behind) [
    | none ↦ none
    | some (iterations_text, rest) ↦ elim (cut_at_dollar rest) [
      | none ↦ none
      | some (salt_hex, digest_hex) ↦ some (record {
        algorithm = algorithm;
        iterations_text = iterations_text;
        salt_hex = salt_hex;
        digest_hex = digest_hex;
      })
    ]
  ]
]

module _ (h : Hashing) where
  -- `hash_password`
  unfoldable pub hash_password : String → List ℕ → Outcome String
  hash_password password salt = do
    digest ← h.pbkdf2 password salt (pos pbkdf2_iterations)
    ok (
        "pbkdf2_sha256"
        <> ("$" <> (show pbkdf2_iterations <> ("$" <> (hex salt <> ("$" <> hex digest))))))

  -- the comparison, behind the parts that could be read
  unfoldable pub check_digest : String → ℤ → List ℕ → List ℕ → Outcome Bool
  check_digest password iterations salt expected = do
    actual ← h.pbkdf2 password salt iterations
    ok (bytes_eq actual expected)

  -- `verify_password`
  unfoldable pub verify_password : String → String → Outcome Bool
  verify_password password stored_hash = elim (split_hash stored_hash) [
    | none ↦ ok false
    | some parts ↦
        if not (parts.algorithm == "pbkdf2_sha256")
        then ok false
        else elim (h.int_of parts.iterations_text) [
          | none ↦ ok false
          | some iterations ↦ elim (from_hex parts.salt_hex) [
            | none ↦ ok false
            | some salt ↦ elim (from_hex parts.digest_hex) [
              | none ↦ ok false
              | some expected ↦ check_digest password iterations salt expected
            ]
          ]
        ]
  ]
