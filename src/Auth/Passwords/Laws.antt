-- ===== src/Auth/Passwords/Laws.antt =====
-- A password is verified against its own hash (backend/app/auth/passwords.py).
use mathlib.Core.Path.{subst}
use Prim.Native.Char.{Char, code}
use text.Mathlib.TextLemmas.{nil-append, cons-append}
use bug_free_enigma.Base.{
  ok-eq, ℕ, String, true, false, some, List, [], ◌∷◌, ◌≡◌, refl, sym, ◌∙◌, ap, inl, inr,
  Outcome-cases, arith, ◌=ℕ◌, All, ok, >>=-eq-ok, ◌↔◌,
}
use bug_free_enigma.Base.Int.{ℤ, pos}
use bug_free_enigma.Base.Text.{◌<>◌, show}
use bug_free_enigma.Auth.Hex.{IsByte, hex, from_hex, from_hex-hex, has_dollar, hex-no_dollar}
use bug_free_enigma.Auth.Passwords.{
  Hashing, pbkdf2_iterations, bytes_eq, cut_at_dollar, HashParts, split_hash, hash_password,
  check_digest, verify_password,
}

pub bytes_eq_iff : (xs ys : List ℕ) → (bytes_eq xs ys ≡ true) ↔ (xs ≡ ys)
unfolding bytes_eq
bytes_eq_iff [] [] = (λ h. refl, λ h. refl)
bytes_eq_iff [] (b ∷ ys) = (λ h. cc, λ h. cc)
bytes_eq_iff (a ∷ xs) [] = (λ h. cc, λ h. cc)
bytes_eq_iff (a ∷ xs) (b ∷ ys) =
    (λ h. ground (arith, (bytes_eq_iff xs ys).0), λ h. ground (arith, (bytes_eq_iff xs ys).1))

dollar : (t : String) → "$" <> t ≡ String.◌∷◌ "$" t
dollar t = cons-append "$" String.[] t ∙ ap (λ u. String.◌∷◌ "$" u) (nil-append t)

cut_cons :
    (c : Char) (s before after : String)
    → (code c =ℕ 36) ≡ false
    → cut_at_dollar s ≡ some (before, after)
    → cut_at_dollar (String.◌∷◌ c s) ≡ some (String.◌∷◌ c before, after)
unfolding cut_at_dollar
cut_cons c s before after h e = rw (h, e) refl

cut_here : (s : String) → cut_at_dollar (String.◌∷◌ "$" s) ≡ some (String.[], s)
unfolding cut_at_dollar
cut_here s = refl

iterations-no_dollar : has_dollar (show pbkdf2_iterations) ≡ false
unfolding has_dollar show
iterations-no_dollar = refl

-- A text without a dollar sign is cut off in front of one.
cut-append : (s t : String) → has_dollar s ≡ false → cut_at_dollar (s <> ("$" <> t)) ≡ some (s, t)
unfolding has_dollar
cut-append String.[] t h = ap cut_at_dollar (nil-append ("$" <> t) ∙ dollar t) ∙ cut_here t
cut-append (String.◌∷◌ c s) t h =
    ap cut_at_dollar (cons-append c s ("$" <> t))
    ∙ cut_cons c (s <> ("$" <> t)) s t (ground arith) (cut-append s t (ground arith))

-- What the hashing is taken to do: a digest of the iterations that are used is made of bytes, and
-- their number is read back from its text.
pub record IsHashing (h : Hashing) : Type 0 where
  pub reads_iterations : h.int_of (show pbkdf2_iterations) ≡ some (pos pbkdf2_iterations)
  pub digests_are_bytes :
      (password : String) (salt digest : List ℕ)
      → h.pbkdf2 password salt (pos pbkdf2_iterations) ≡ ok digest
      → All IsByte digest

split_hash-cut :
    (stored a b c d rest others : String)
    → cut_at_dollar stored ≡ some (a, rest)
    → cut_at_dollar rest ≡ some (b, others)
    → cut_at_dollar others ≡ some (c, d)
    → split_hash stored
      ≡ some (record { algorithm = a; iterations_text = b; salt_hex = c; digest_hex = d })
unfolding split_hash
split_hash-cut stored a b c d rest others p q r = ground arith

split_stored :
    (salt digest : List ℕ)
    → All IsByte salt
    → split_hash (
        "pbkdf2_sha256"
        <> ("$" <> (show pbkdf2_iterations <> ("$" <> (hex salt <> ("$" <> hex digest))))))
      ≡ some (record {
        algorithm = "pbkdf2_sha256";
        iterations_text = show pbkdf2_iterations;
        salt_hex = hex salt;
        digest_hex = hex digest;
      })
unfolding has_dollar
split_stored salt digest s =
    let first =
      cut-append "pbkdf2_sha256"
        (show pbkdf2_iterations <> ("$" <> (hex salt <> ("$" <> hex digest)))) refl in
    let second =
      cut-append (show pbkdf2_iterations) (hex salt <> ("$" <> hex digest)) iterations-no_dollar in
    let third = cut-append (hex salt) (hex digest) (hex-no_dollar salt s) in
    split_hash-cut _ _ _ _ _ _ _ first second third

check_digest_iff :
    (h : Hashing) (password : String) (iterations : ℤ) (salt digest : List ℕ)
    → (check_digest h password iterations salt digest ≡ ok true)
      ↔ (h.pbkdf2 password salt iterations ≡ ok digest)
unfolding check_digest
check_digest_iff h password iterations salt digest =
    elim (Outcome-cases (h.pbkdf2 password salt iterations)) [
      | inl (actual, e) ↦ rw e (
        λ same. ap ok ((bytes_eq_iff actual digest).0 (ok-eq same)),
        λ same. ap ok ((bytes_eq_iff actual digest).1 (ok-eq same)),
      )
      | inr (x, e) ↦ rw e (λ same. cc, λ same. cc)
    ]

parts_of : List ℕ → List ℕ → HashParts
parts_of salt digest = record {
  algorithm = "pbkdf2_sha256";
  iterations_text = show pbkdf2_iterations;
  salt_hex = hex salt;
  digest_hex = hex digest;
}

verify_stored :
    (h : Hashing) (password stored : String) (salt digest : List ℕ)
    → split_hash stored ≡ some (parts_of salt digest)
    → h.int_of (show pbkdf2_iterations) ≡ some (pos pbkdf2_iterations)
    → from_hex (hex salt) ≡ some salt
    → from_hex (hex digest) ≡ some digest
    → verify_password h password stored
      ≡ check_digest h password (pos pbkdf2_iterations) salt digest
unfolding verify_password parts_of
verify_stored h password stored salt digest p q r s = ground arith

-- A password is verified against a hash that was made of another one exactly when both have the
-- same digest under the salt; so the password that was hashed is always accepted.
pub verify_password-hash :
    (h : Hashing) (password other stored : String) (salt : List ℕ)
    → IsHashing h
    → All IsByte salt
    → hash_password h password salt ≡ ok stored
    → (verify_password h password stored ≡ ok true)
      × ((verify_password h other stored ≡ ok true) ↔ (
          h.pbkdf2 other salt (pos pbkdf2_iterations)
          ≡ h.pbkdf2 password salt (pos pbkdf2_iterations)))
unfolding hash_password parts_of
verify_password-hash h password other stored salt is s e =
    let (digest, digested, made) = >>=-eq-ok (h.pbkdf2 password salt (pos pbkdf2_iterations)) _ e in
    let stored_parts =
      subst (λ t. split_hash t ≡ some (parts_of salt digest)) (ok-eq made)
        (split_stored salt digest s) in
    let read : (who : String)
        → verify_password h who stored ≡ check_digest h who (pos pbkdf2_iterations) salt digest =
      λ who.
        verify_stored h who stored salt digest stored_parts is.reads_iterations
          (from_hex-hex salt s)
          (from_hex-hex digest (is.digests_are_bytes password salt digest digested)) in
    let accepts = check_digest_iff h other (pos pbkdf2_iterations) salt digest in
    (
      read password ∙ (check_digest_iff h password (pos pbkdf2_iterations) salt digest).1 digested,
      (
        λ verified. accepts.0 (sym (read other) ∙ verified) ∙ sym digested,
        λ same. read other ∙ accepts.1 (same ∙ digested),
      ),
    )
