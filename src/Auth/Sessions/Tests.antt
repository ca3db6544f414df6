-- ===== src/Auth/Sessions/Tests.antt =====
-- Sessions and passwords on concrete calls (backend/app/auth).
use Prim.Native.String.{count}
use mathlib.Core.Path.{subst}
use bug_free_enigma.Base.{
  ok-eq, ◌%◌, String, true, none, some, List, [], ◌∷◌, ◌≡◌, ◌↔◌, refl, arith, ok, All,
}
use bug_free_enigma.Base.Text.{show}
use bug_free_enigma.Base.Int.{pos}
use bug_free_enigma.Base.Dict.{lookup}
use bug_free_enigma.Core.Time.{Instant}
use bug_free_enigma.Auth.Hex.{IsByte, hex, hex_digit}
use bug_free_enigma.Auth.Passwords.{Hashing, pbkdf2_iterations, hash_password, verify_password}
use bug_free_enigma.Auth.Passwords.Laws.{IsHashing, verify_password-hash}
use bug_free_enigma.Auth.Sessions.{AuthService}
use bug_free_enigma.Auth.Sessions.Ledger.{
  Event, registers, logs_in, logs_out, authenticates, Ledger, run, spec_run,
}
use bug_free_enigma.Auth.Sessions.Refinement.{Agrees, run-Refines}

-- a stand-in digest, which tells the length of the password
abbrev salted : Hashing
salted = record {
  pbkdf2 = λ password salt iterations. ok ((count password % 256) ∷ []);
  int_of = λ text. some (pos 200000);
}

salted-IsHashing : IsHashing salted
salted-IsHashing = record {
  reads_iterations = refl;
  digests_are_bytes = λ p s d e. subst (All IsByte) (ok-eq e) (omega arith);
}

abbrev stored : String
stored = "pbkdf2_sha256$200000$01ff$06"

verify_password-hash_example :
    (verify_password salted "secret" stored ≡ ok true)
    × ((verify_password salted "swordfish" stored ≡ ok true) ↔ (
        salted.pbkdf2 "swordfish" (1 ∷ 255 ∷ []) (pos pbkdf2_iterations)
        ≡ salted.pbkdf2 "secret" (1 ∷ 255 ∷ []) (pos pbkdf2_iterations)))
unfolding hash_password hex show hex_digit
verify_password-hash_example =
    verify_password-hash salted "secret" "swordfish" stored (1 ∷ 255 ∷ []) salted-IsHashing
      (omega arith) refl

abbrev service : AuthService
service = record { users = []; sessions = []; session_ttl_seconds = 60 }

abbrev ledger : Ledger
ledger = record { users = []; opened = λ token. none; session_ttl_seconds = 60 }

empty-Agrees : Agrees 0 service ledger
unfolding lookup
empty-Agrees = record {
  same_users = refl;
  same_ttl = refl;
  distinct = tt;
  same_sessions = λ later token h. refl;
}

abbrev calls : List (Instant × Event)
calls =
    (5, registers "root@example.org" "secret" (1 ∷ []) "user_1")
    ∷ (6, logs_in "root@example.org" "secret" "token_1" 7)
    ∷ (8, authenticates "token_1")
    ∷ (90000000, authenticates "token_1")
    ∷ (90000001, logs_out "token_1")
    ∷ []

run-Refines_example : run (λ s. s) salted calls service ≡ spec_run (λ s. s) salted calls ledger
run-Refines_example = run-Refines (λ s. s) salted 0 calls empty-Agrees (omega arith)
