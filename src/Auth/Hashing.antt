-- ===== src/Auth/Hashing.antt =====
-- The hash of a password is accepted for that password (internal/auth/service.go: `hashPassword` and
-- `verifyPassword`).
use Prim.Native.Char.{code, char}
use Prim.Native.String.append
use Prim.Native.String.{[] as []ₛ, ◌∷◌ as ◌∷ₛ◌, ◌++◌ as ◌+s◌}
use nexium_storage_back.Shared.{
  ℕ, zero, suc, ◌/◌, ◌%◌, ◌<◌, ◌≡◌, refl, ap, ◌∙◌, true, false, String, some, List, [], ◌∷◌, arith,
}
use nexium_storage_back.Auth.{
  Service, split_on, has_code, hex_digit, hex_value, encode_hex, decode_hex, encode_password,
  same_bytes, verify_password,
}

hex_digit-value : (n : ℕ) → n < 16 → hex_value (code (hex_digit n)) ≡ some n
unfolding hex_value hex_digit
hex_digit-value zero h = refl
hex_digit-value (suc zero) h = refl
hex_digit-value (suc (suc zero)) h = refl
hex_digit-value (suc (suc (suc zero))) h = refl
hex_digit-value (suc (suc (suc (suc zero)))) h = refl
hex_digit-value (suc (suc (suc (suc (suc zero))))) h = refl
hex_digit-value (suc (suc (suc (suc (suc (suc zero)))))) h = refl
hex_digit-value (suc (suc (suc (suc (suc (suc (suc zero))))))) h = refl
hex_digit-value (suc (suc (suc (suc (suc (suc (suc (suc zero)))))))) h = refl
hex_digit-value (suc (suc (suc (suc (suc (suc (suc (suc (suc zero))))))))) h = refl
hex_digit-value (suc (suc (suc (suc (suc (suc (suc (suc (suc (suc zero)))))))))) h = refl
hex_digit-value (suc (suc (suc (suc (suc (suc (suc (suc (suc (suc (suc zero))))))))))) h = refl
hex_digit-value (suc (suc (suc (suc (suc (suc (suc (suc (suc (suc (suc (suc zero)))))))))))) h =
    refl
hex_digit-value (suc (suc (suc (suc (suc (suc (suc (suc (suc (suc (suc (suc (suc zero)))))))))))))
      h =
    refl
hex_digit-value
      (suc (suc (suc (suc (suc (suc (suc (suc (suc (suc (suc (suc (suc (suc zero)))))))))))))) h =
    refl
hex_digit-value
      (suc (suc (suc (suc (suc (suc (suc (suc (suc (suc (suc (suc (suc (suc (suc zero)))))))))))))))
      h =
    refl
hex_digit-value
      (suc
        (suc (suc (suc (suc (suc (suc (suc (suc (suc (suc (suc (suc (suc (suc (suc n))))))))))))))))
      h =
    ground arith

abbrev pub AreBytes : List ℕ → Type 0
AreBytes [] = Unit
AreBytes (b ∷ bs) = (b < 256) × AreBytes bs

decode_hex-encode_hex : (bs : List ℕ) → AreBytes bs → decode_hex (encode_hex bs) ≡ some bs
unfolding decode_hex encode_hex
decode_hex-encode_hex [] h = refl
decode_hex-encode_hex (b ∷ bs) h =
    ground (arith, decode_hex-encode_hex bs h.1, hex_digit-value (b / 16), hex_digit-value (b % 16))

-- No "$" among the digits.
has_code-encode_hex : (bs : List ℕ) → AreBytes bs → has_code 36 (encode_hex bs) ≡ false
unfolding has_code encode_hex hex_value
has_code-encode_hex [] h = refl
has_code-encode_hex (b ∷ bs) h =
    ground (arith, has_code-encode_hex bs h.1, hex_digit-value (b / 16), hex_digit-value (b % 16))

split_on-none : (s : String) → has_code 36 s ≡ false → split_on 36 s ≡ s ∷ []
unfolding split_on has_code
split_on-none []ₛ h = refl
split_on-none (c ∷ₛ s) h = ground (arith, split_on-none s)

split_dollar : (t : String) → split_on 36 ("$" +s t) ≡ []ₛ ∷ split_on 36 t
unfolding split_on
split_dollar t = rw (append.cons (char 36 tt) []ₛ t, append.nil t) refl

-- Split at the first "$".
split_on-append :
    (s t : String) → has_code 36 s ≡ false → split_on 36 (s +s ("$" +s t)) ≡ s ∷ split_on 36 t
unfolding split_on has_code
split_on-append []ₛ t h = rw (append.nil ("$" +s t)) (split_dollar t)
split_on-append (c ∷ₛ s) t h = rw (append.cons c s ("$" +s t)) (ground (arith, split_on-append s t))

append_assoc : (s t u : String) → (s +s t) +s u ≡ s +s (t +s u)
append_assoc []ₛ t u = rw (append.nil t, append.nil (t +s u)) refl
append_assoc (c ∷ₛ s) t u =
    rw (append.cons c s t, append.cons c (s +s t) u, append.cons c s (t +s u), append_assoc s t u)
      refl

-- The first four parts.
split_on-prefix :
    (t : String)
    → split_on 36 ("$argon2id$v=19$m=65536,t=1,p=4$" +s t)
      ≡ "" ∷ "argon2id" ∷ "v=19" ∷ "m=65536,t=1,p=4" ∷ split_on 36 t
unfolding has_code
split_on-prefix t =
    let last = split_on-append "m=65536,t=1,p=4" t refl in
    let version = split_on-append "v=19" ("m=65536,t=1,p=4" +s ("$" +s t)) refl in
    let name =
      split_on-append "argon2id" ("v=19" +s ("$" +s ("m=65536,t=1,p=4" +s ("$" +s t)))) refl in
    let start =
      split_dollar
        ("argon2id" +s ("$" +s ("v=19" +s ("$" +s ("m=65536,t=1,p=4" +s ("$" +s t)))))) in
    let grouped =
      append_assoc "$" "argon2id$v=19$m=65536,t=1,p=4$" t
      ∙ ap (λ u. "$" +s u)
          (append_assoc "argon2id" "$v=19$m=65536,t=1,p=4$" t
            ∙ ap (λ u. "argon2id" +s u)
                (append_assoc "$" "v=19$m=65536,t=1,p=4$" t
                  ∙ ap (λ u. "$" +s u)
                      (append_assoc "v=19" "$m=65536,t=1,p=4$" t
                        ∙ ap (λ u. "v=19" +s u)
                            (append_assoc "$" "m=65536,t=1,p=4$" t
                              ∙ ap (λ u. "$" +s u) (append_assoc "m=65536,t=1,p=4" "$" t))))) in
    ap (split_on 36) grouped ∙ cc (start, name, version, last)

same_bytes_refl : (bs : List ℕ) → same_bytes bs bs ≡ true
unfolding same_bytes
same_bytes_refl [] = refl
same_bytes_refl (b ∷ bs) = ground (arith, same_bytes_refl bs)

-- The hash that a password is stored as is accepted for the password.
pub verify_password-encode_password :
    (s : Service) (password : String) (salt : List ℕ)
    → AreBytes salt
    → AreBytes (s.id_key password salt)
    → verify_password s password (encode_password salt (s.id_key password salt)) ≡ true
unfolding verify_password encode_password
verify_password-encode_password s password salt h k =
    let key = s.id_key password salt in
    rw
      (
        split_on-prefix (encode_hex salt +s ("$" +s encode_hex key)),
        split_on-append (encode_hex salt) (encode_hex key) (has_code-encode_hex salt h),
        split_on-none (encode_hex key) (has_code-encode_hex key k),
        decode_hex-encode_hex salt h,
        decode_hex-encode_hex key k,
      )
      (same_bytes_refl key)
