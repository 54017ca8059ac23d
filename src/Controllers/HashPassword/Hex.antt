-- ===== src/Controllers/HashPassword/Hex.antt =====
-- The text that doHashPassword prints, read back as `tor` reads it: "16:", then in hexadecimal the
-- salt of eight bytes, the indicator byte and the digest.
use Prim.Native.String.{◌++◌ as ◌<>◌}
use tor_controller.Base.{
  ℕ, suc, ◌<◌, ◌≡◌, ap, String, List, ◌++◌, some, arith, length, length-append,
}
use tor_controller.Base.Bytes.{bytes}
use tor_controller.Controllers.HashPassword.{byte_count, hex_upper, hash_with_salt, print_hash}
use tor_controller.Controllers.HashPassword.Stretch.{IsCycle, stretch-IsCycle}

-- For every salt that is not empty, the printed hash is "16:" with the salt, the indicator byte 60
-- and the digest of exactly 65536 bytes, the salted password repeated.
pub hash_with_salt-eq :
    (sha1 : List ℕ → List ℕ) (salt : List ℕ) (input : String)
    → 0 < length salt
    → (written : List ℕ) × (hash_with_salt sha1 salt input
        ≡ some ("16:" <> (hex_upper salt <> ("60" <> hex_upper (sha1 written)))))
      × IsCycle (salt ++ bytes input) 65536 written
unfolding hash_with_salt
hash_with_salt-eq sha1 salt input pos =
    let (written, e, h) =
      stretch-IsCycle (suc byte_count) (salt ++ bytes input) byte_count
        (omega (arith, length-append salt (bytes input))) (omega arith) in
    (written, ap (print_hash sha1 salt) e, h)
