-- ===== src/Auth/Passwords.antt =====
-- internal/auth/service.go: passwords and tokens are stored as hashes.
use Prim.Native.String.{◌++◌ as ◌+s◌}
use nexium_storage_back.Shared.{
  ℕ, Bool, true, false, ◌&&◌, String, Option, none, some, List, [], ◌∷◌, ◌==◌,
}
use nexium_storage_back.World.{Action, random_read, random_int, pure, ◌>>=◌, ask, read}
use nexium_storage_back.Auth.Text.{split_on, encode_hex, decode_hex, six_digits}
use nexium_storage_back.Auth.Model.{Service}

unfoldable pub encode_password : List ℕ → List ℕ → String
encode_password salt key =
    "$argon2id$v=19$m=65536,t=1,p=4$" +s (encode_hex salt +s ("$" +s encode_hex key))

unfoldable pub hash_password : Service → String → Action String
hash_password s password = do
  salt ← ask (λ x l. x.random_bytes l) random_read
  pure (encode_password salt (s.id_key password salt))

-- The lengths are equal and so is every pair of bytes: `diff` stays 0.
unfoldable pub same_bytes : List ℕ → List ℕ → Bool
same_bytes [] [] = true
same_bytes [] (b ∷ bs) = false
same_bytes (a ∷ as') [] = false
same_bytes (a ∷ as') (b ∷ bs) = a == b && same_bytes as' bs

abbrev matches_key : Service → String → Option (List ℕ) → Option (List ℕ) → Bool
matches_key s password (some salt) (some expected) = same_bytes (s.id_key password salt) expected
matches_key s password none expected = false
matches_key s password (some salt) none = false

-- The six parts of the text between the signs.
abbrev matches_parts : Service → String → List String → Bool
matches_parts s password (a ∷ b ∷ c ∷ d ∷ salt ∷ key ∷ []) =
    matches_key s password (decode_hex salt) (decode_hex key)
matches_parts s password parts = false

-- 36 is "$".
unfoldable pub verify_password : Service → String → String → Bool
verify_password s password encoded = matches_parts s password (split_on 36 encoded)

abbrev pub hash_token : String → Action String
hash_token token x = pure (x.sha256_hex token) x

unfoldable pub generate_token : Action String
generate_token = ask (λ x l. x.random l) random_read

-- The random source does not fail: the code would panic.
unfoldable pub generate_code : Action String
generate_code = do n ← read (λ x l. x.random_number l) (random_int 1000000); pure (six_digits n)
