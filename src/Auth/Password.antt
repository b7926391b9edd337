-- ===== src/Auth/Password.antt =====
-- internal/auth/password.go: argon2id hashes as texts, and checking a password against one. The text
-- is "$argon2id$v=19$" with the parameters, the salt and the key, joined by dollar signs.
pub mod Roundtrip
use Prim.Native.String
use cellarkeep_server.Prelude.{
  ℕ, ◌*◌, String, Bool, true, false, Option, none, some, List, [], ◌∷◌, length, string_eq, ◌==◌,
  not, if◌then◌else◌,
}
use cellarkeep_server.Prelude.Text.{split}
use cellarkeep_server.Store.Action.{Runtime, Store, Action, Result, pure, ◌>>=◌, draw}

abbrev pub argon_time : ℕ
argon_time = 3

abbrev pub argon_memory : ℕ
argon_memory = 64 * 1024

abbrev pub argon_threads : ℕ
argon_threads = 1

abbrev pub argon_key_len : ℕ
argon_key_len = 32

infixr 65 ◌<>◌
abbrev pub ◌<>◌ : String → String → String
a <> b = String.◌++◌ a b

-- The text of a hash, from its three variable parts.
abbrev pub hash_text : String → String → String → String
hash_text params salt key = "$argon2id$v=19$" <> params <> "$" <> salt <> "$" <> key

-- The hash of a password by a salt.
unfoldable pub hash_with : Runtime → List ℕ → String → String
hash_with rt salt pw =
    hash_text (rt.print_params argon_memory argon_time argon_threads) (rt.base64_std salt)
      (rt.base64_std (rt.id_key pw salt argon_time argon_memory argon_threads argon_key_len))

-- HashPassword
unfoldable pub hash_password : Store → String → Action String
unfolding hash_with
hash_password s pw = do salt ← draw s 16; pure (hash_with s.runtime salt pw)

-- The key that the password gives under the decoded parts, against the wanted one.
unfoldable pub same_key : Runtime → String → ℕ × ℕ × ℕ → List ℕ → List ℕ → Bool
same_key rt pw (m, t, p) salt want =
    rt.constant_time_compare (rt.id_key pw salt t m p (length want)) want

-- From the parameters on: a part that does not decode is an error, `none`.
unfoldable pub verify_parts : Runtime → String → String → String → String → Option Bool
unfolding same_key
verify_parts rt pw params salt key = elim (rt.scan_params params) [
  | none ↦ none
  | some mtp ↦ elim (rt.decode_base64_std salt) [
    | none ↦ none
    | some salt' ↦ elim (rt.decode_base64_std key) [
      | none ↦ none
      | some want ↦ some (same_key rt pw mtp salt' want)
    ]
  ]
]

-- The hash has to have six parts, the second of them "argon2id".
unfoldable pub verify_split : Runtime → String → List String → Option Bool
unfolding verify_parts
verify_split rt pw (_ ∷ algorithm ∷ _ ∷ params ∷ salt ∷ key ∷ []) =
    if algorithm == "argon2id" then verify_parts rt pw params salt key else none
verify_split rt pw _ = none

-- VerifyPassword, `none` for an error.
unfoldable pub verify_password : Runtime → String → String → Option Bool
unfolding verify_split split
verify_password rt hash pw = verify_split rt pw (split "$" hash)

-- `ok, _ := VerifyPassword(hash, pw)`: an error counts as a mismatch.
unfoldable pub password_matches : Runtime → String → String → Bool
unfolding verify_password
password_matches rt hash pw = elim (verify_password rt hash pw) [ none ↦ false | some b ↦ b ]
