-- ===== src/Controllers/HashPassword/RoundTrip.antt =====
-- What `tor` reads from the text that doHashPassword prints: "16:", then in hexadecimal the salt of
-- eight bytes, the indicator byte and the digest.
use Prim.Native.String.{◌++◌ as ◌<>◌}
use text.Mathlib.TextLemmas.{nil-append, append_assoc}
use tor_controller.Base.{
  ◌-◌, ◌%◌, ℕ, zero, suc, ◌+◌, ◌*◌, ◌/◌, ◌^◌, ◌≡◌, refl, ap, sym, ◌∙◌, String, List, [], ◌∷◌, ◌++◌,
  Option, none, some, ◌&&◌, ◌==◌, if◌then◌else◌, arith, length, length-append,
}
use tor_controller.Kube.Client.{Kube}
use tor_controller.Base.Bytes.{bytes, bytes-append}
use tor_controller.Controllers.HashPassword.{hex_digit, hex_upper, do_hash_password, specifier_len}
use tor_controller.Controllers.HashPassword.Stretch.{IsCycle}
use tor_controller.Controllers.HashPassword.Hex.{hash_with_salt-eq}
use tor_controller.Controllers.HashPassword.Unhex.{
  IsBytes, unhex, unhex-hex_upper, length-hex_upper,
}

-- The salt, the indicator and the digest of a printed hash.
abbrev pub Parts : Type 0
Parts = List ℕ × ℕ × List ℕ

-- The indicator stands after the salt, of which `n` bytes are still to be read.
split_at : ℕ → List ℕ → Option Parts
split_at zero [] = none
split_at zero (c ∷ digest) = some ([], c, digest)
split_at (suc n) [] = none
split_at (suc n) (b ∷ bs) = push b (split_at n bs)
  where
    push : ℕ → Option Parts → Option Parts
    push b none = none
    push b (some (salt, c, digest)) = some (b ∷ salt, c, digest)

abbrev split_read : Option (List ℕ) → Option Parts
split_read none = none
split_read (some bs) = split_at 8 bs

abbrev after_prefix : List ℕ → Option Parts
after_prefix (a ∷ b ∷ c ∷ rest) =
    if a == b'1' && b == b'6' && c == b':' then split_read (unhex rest) else none
after_prefix bs = none

unfoldable pub read_hash : String → Option Parts
unfolding split_at unhex
read_hash text = after_prefix (bytes text)

IsBytes-append : (xs ys : List ℕ) → IsBytes xs → IsBytes ys → IsBytes (xs ++ ys)
IsBytes-append [] ys h k = k
IsBytes-append (x ∷ xs) ys (h, hs) k = (h, IsBytes-append xs ys hs k)

hex_upper-append : (xs ys : List ℕ) → hex_upper xs <> hex_upper ys ≡ hex_upper (xs ++ ys)
unfolding hex_upper
hex_upper-append [] ys = nil-append (hex_upper ys)
hex_upper-append (x ∷ xs) ys =
    append_assoc (hex_digit (x / 16)) (hex_digit (x % 16) <> hex_upper xs) (hex_upper ys)
    ∙ ap (λ t. hex_digit (x / 16) <> t)
        (append_assoc (hex_digit (x % 16)) (hex_upper xs) (hex_upper ys)
          ∙ ap (λ t. hex_digit (x % 16) <> t) (hex_upper-append xs ys))

split_at-append :
    (salt : List ℕ) (c : ℕ) (digest : List ℕ)
    → split_at (length salt) (salt ++ c ∷ digest) ≡ some (salt, c, digest)
unfolding split_at
split_at-append [] c digest = refl
split_at-append (b ∷ salt) c digest = rw (split_at-append salt c digest) refl

-- The printed text is one hexadecimal text after its prefix.
printed : List ℕ → List ℕ → String
printed salt digest = "16:" <> (hex_upper salt <> ("60" <> hex_upper digest))

bytes-printed :
    (salt digest : List ℕ)
    → bytes (printed salt digest) ≡ b'1' ∷ b'6' ∷ b':' ∷ bytes (hex_upper (salt ++ 96 ∷ digest))
unfolding printed
bytes-printed salt digest =
    let mark : "60" <> hex_upper digest ≡ hex_upper (96 ∷ digest) =
      unfold hex_upper in hex_upper-append (96 ∷ []) digest in
    rw mark (
      bytes-append "16:" (hex_upper salt <> hex_upper (96 ∷ digest))
      ∙ ap (λ t. b'1' ∷ b'6' ∷ b':' ∷ bytes t) (hex_upper-append salt (96 ∷ digest)))

module _ (salt digest : List ℕ) (eight : length salt ≡ 8) (salt_bytes : IsBytes salt)
    (digest_bytes : IsBytes digest) where
  joined-IsBytes : IsBytes (salt ++ 96 ∷ digest)
  joined-IsBytes = IsBytes-append salt (96 ∷ digest) salt_bytes (omega arith, digest_bytes)

  read_hash-printed : read_hash (printed salt digest) ≡ some (salt, 96, digest)
  unfolding read_hash
  read_hash-printed =
      ap after_prefix (bytes-printed salt digest)
      ∙ (ap split_read (unhex-hex_upper (salt ++ 96 ∷ digest) joined-IsBytes)
          ∙ (ap (λ n. split_at n (salt ++ 96 ∷ digest)) (sym eight)
              ∙ split_at-append salt 96 digest))

  length-printed : length (bytes (printed salt digest)) ≡ 21 + 2 * length digest
  length-printed = rw (bytes-printed salt digest) (
      omega (
        arith,
        length-hex_upper (salt ++ 96 ∷ digest) joined-IsBytes,
        length-append salt (96 ∷ digest),
      ))

-- The number of bytes that an indicator stands for, in RFC 2440.
abbrev pub counted : ℕ → ℕ
counted c = (16 + c % 16) * 2 ^ (c / 16 + 6)

-- A password agrees with a printed hash if the digest is that of the salted password, repeated to
-- the number of bytes that the indicator stands for.
abbrev pub Agrees : (List ℕ → List ℕ) → String → Parts → Type 0
Agrees sha1 input (salt, c, digest) =
    (written : List ℕ) × (digest ≡ sha1 written) × IsCycle (salt ++ bytes input) (counted c) written

module _ (K : Kube) (input : String) (s : K.State) (salt : List ℕ)
    (read : (K.read_random (specifier_len - 1) s).0 ≡ some salt) (eight : length salt ≡ 8)
    (salt_bytes : IsBytes salt) (sha1_bytes : (bs : List ℕ) → IsBytes (K.sha1 bs)) where
  -- If the random source gives a salt of eight bytes, and digests are bytes, what doHashPassword returns reads back as
  -- that salt, an indicator and a digest with which the password agrees, and has 21 characters more than twice the
  -- bytes of the digest.
  pub do_hash_password-read :
      (text : String) × (parts : Parts) × ((do_hash_password K input s).0 ≡ some text)
      × (read_hash text ≡ some parts)
      × (parts.0 ≡ salt)
      × Agrees K.sha1 input parts
      × (length (bytes text) ≡ 21 + 2 * length parts.2)
  unfolding do_hash_password printed
  do_hash_password-read =
      let (written, e, h) = hash_with_salt-eq K.sha1 salt input (omega arith) in
      (
        printed salt (K.sha1 written),
        (salt, 96, K.sha1 written),
        rw read e,
        read_hash-printed salt (K.sha1 written) eight salt_bytes (sha1_bytes written),
        refl,
        (written, refl, h),
        length-printed salt (K.sha1 written) eight salt_bytes (sha1_bytes written),
      )
