-- ===== src/Tests/Limits.antt =====
-- Witnesses for the limiter and the password hashes.
use cellarkeep_server.Prelude.{String, true, List, [], ◌∷◌, string_eq, ◌≡◌, refl, arith}
use cellarkeep_server.Prelude.Text.{lacks}
use cellarkeep_server.Store.Model.{Time}
use cellarkeep_server.Auth.Limiter.{Limiter, lookup}
use cellarkeep_server.Auth.Limiter.Window.{admitted, window_admits, NoWindow}
use cellarkeep_server.Auth.Password.{hash_with, password_matches}
use cellarkeep_server.Auth.Password.Roundtrip.{IsCodec, password_matches-hash_with}
use cellarkeep_server.Tests.{runtime1, salt1, key32}

abbrev two : Limiter
two = record { max = 2; window = 10; hits = [] }

two-NoWindow : NoWindow 5 "a" two
unfolding lookup
two-NoWindow e h = cc

-- Three hits of "a" and one of "b" in the window that the first one opens.
abbrev hits1 : List (Time × String)
hits1 = (6, "a") ∷ (7, "b") ∷ (8, "a") ∷ []

window_admits_example : admitted "a" ((5, "a") ∷ hits1) two ≡ 2
window_admits_example =
    window_admits 5 "a" hits1 two (omega arith) two-NoWindow
      (omega arith, (omega arith, (omega arith, tt)))

codec1 : IsCodec runtime1 salt1 key32
unfolding lacks
codec1 = record {
  scan_print = refl;
  decode_salt = refl;
  decode_key = refl;
  plain_params = refl;
  plain_salt = refl;
  plain_key = refl;
  key_length = refl;
  compare_eq = refl;
}

password_matches-hash_with_example :
    password_matches runtime1 (hash_with runtime1 salt1 "secret") "secret" ≡ true
password_matches-hash_with_example = password_matches-hash_with runtime1 salt1 "secret" codec1
