-- ===== src/Auth/Password/Roundtrip.antt =====
-- HashPassword and VerifyPassword of internal/auth/password.go against each other.
use text.Mathlib.TextLemmas.{nil-append, cons-append, append_assoc}
use cellarkeep_server.Prelude.{
  ℕ, String, true, some, List, [], ◌∷◌, length, string_eq, ◌≡◌, refl, ap, ◌∙◌,
}
use cellarkeep_server.Prelude.Text.{split, lacks, split-append, split_lem}
use cellarkeep_server.Store.Action.{Runtime}
use cellarkeep_server.Auth.Password.{
  argon_time, argon_memory, argon_threads, argon_key_len, hash_text, ◌<>◌, hash_with, same_key,
  verify_parts, verify_split, verify_password, password_matches,
}

-- What the code relies on of fmt, base64, argon2 and subtle for one salt and one key: what is printed is
-- scanned, what is encoded is decoded, what is printed or encoded has no dollar sign, the key has the length
-- asked for, and a key is equal to itself.
pub record IsCodec (rt : Runtime) (salt key : List ℕ) : Type 0 where
  pub scan_print :
      rt.scan_params (rt.print_params argon_memory argon_time argon_threads)
      ≡ some (argon_memory, argon_time, argon_threads)
  pub decode_salt : rt.decode_base64_std (rt.base64_std salt) ≡ some salt
  pub decode_key : rt.decode_base64_std (rt.base64_std key) ≡ some key
  pub plain_params : lacks "$" (rt.print_params argon_memory argon_time argon_threads) ≡ true
  pub plain_salt : lacks "$" (rt.base64_std salt) ≡ true
  pub plain_key : lacks "$" (rt.base64_std key) ≡ true
  pub key_length : length key ≡ argon_key_len
  pub compare_eq : rt.constant_time_compare key key ≡ true

-- A dollar sign between two texts ends the first part of the split.
split-dollar : (a b : String) → lacks "$" a ≡ true → split "$" (a <> ("$" <> b)) ≡ a ∷ split "$" b
split-dollar a b h =
    ap (λ x. split "$" (a <> x)) (cons-append "$" "" b ∙ ap (String.◌∷◌ "$") (nil-append b))
    ∙ split-append "$" a b h

-- The fixed beginning of a hash is three parts.
split-prefix :
    (b : String) → split "$" ("$argon2id$v=19$" <> b) ≡ "" ∷ "argon2id" ∷ "v=19" ∷ split "$" b
unfolding lacks
split-prefix b =
    ap (split "$") (
      append_assoc ("" <> "$") ("argon2id" <> "$" <> "v=19" <> "$") b
      ∙ append_assoc "" "$" _
      ∙ ap (λ x. "" <> ("$" <> x))
          (append_assoc "argon2id" ("$" <> "v=19" <> "$") b
            ∙ ap (λ x. "argon2id" <> x)
                (append_assoc "$" ("v=19" <> "$") b
                  ∙ ap (λ x. "$" <> x) (append_assoc "v=19" "$" b))))
    ∙ split-dollar "" _ refl
    ∙ ap (λ xs. "" ∷ xs)
        (split-dollar "argon2id" _ refl ∙ ap (λ xs. "argon2id" ∷ xs) (split-dollar "v=19" b refl))

split-hash_text :
    (params salt key : String)
    → lacks "$" params ≡ true
    → lacks "$" salt ≡ true
    → lacks "$" key ≡ true
    → split "$" (hash_text params salt key) ≡ "" ∷ "argon2id" ∷ "v=19" ∷ params ∷ salt ∷ key ∷ []
split-hash_text params salt key p s k =
    split-prefix _
    ∙ rw (split-dollar params (salt <> "$" <> key) p, split-dollar salt key s, split_lem "$" key k)
        refl

verify_parts-true :
    (rt : Runtime) (salt key : List ℕ) (pw : String)
    → IsCodec rt salt key
    → rt.id_key pw salt argon_time argon_memory argon_threads argon_key_len ≡ key
    → verify_parts rt pw
        (rt.print_params argon_memory argon_time argon_threads)
        (rt.base64_std salt)
        (rt.base64_std key)
      ≡ some true
unfolding verify_parts same_key
verify_parts-true rt salt key pw c same =
    rw (c.scan_print, c.decode_salt, c.decode_key, verify_parts)
      (rw (c.key_length, same, c.compare_eq, same_key) refl)

-- A password matches its own hash, whatever the salt, if the libraries write what they read again, without
-- a dollar sign.
pub password_matches-hash_with :
    (rt : Runtime) (salt : List ℕ) (pw : String)
    → IsCodec rt salt (rt.id_key pw salt argon_time argon_memory argon_threads argon_key_len)
    → password_matches rt (hash_with rt salt pw) pw ≡ true
unfolding password_matches verify_password hash_with verify_split
password_matches-hash_with rt salt pw c =
    rw
      (
        split-hash_text _ _ _ c.plain_params c.plain_salt c.plain_key,
        password_matches,
        verify_password,
      )
      (rw (verify_parts-true rt salt _ pw c refl) refl)
