-- ===== src/Agents/Tor/Controller/Paths.antt =====
-- The paths that sync writes are different ones.
use Prim.Native.String.{◌++◌ as ◌<>◌}
use tor_controller.Base.{
  ℕ, ◌≡◌, ◌≢◌, refl, ap, sym, ◌∙◌, String, true, false, some, ◌++◌, get_elem?, str_eq, eq_iff,
  arith,
}
use tor_controller.Base.Bytes.{bytes, bytes-append}
use tor_controller.Agents.Tor.Controller.{
  tor_file_path, ob_config_path, authorized_clients_dir, join,
}

-- Texts with different bytes at an index are different.
differ_at :
    (i : ℕ) (s t : String) (a b : ℕ)
    → get_elem? (bytes s) i ≡ some a
    → get_elem? (bytes t) i ≡ some b
    → a ≢ b
    → s ≢ t
differ_at i s t a b h k ne e =
    let p : some a ≡ some b = sym h ∙ (ap (λ x. get_elem? (bytes x) i) e ∙ k) in ne (cc)

byte_of_join :
    (dir name : String) (i a : ℕ)
    → get_elem? (bytes dir ++ bytes ("/" <> name)) i ≡ some a
    → get_elem? (bytes (join dir name)) i ≡ some a
unfolding join
byte_of_join dir name i a h = ap (λ x. get_elem? x i) (bytes-append dir ("/" <> name)) ∙ h

pub service_file-ne-torfile : (name : String) → join "/run/tor/service" name ≢ tor_file_path
service_file-ne-torfile name =
    differ_at 9 (join "/run/tor/service" name) tor_file_path b's' b't'
      (byte_of_join "/run/tor/service" name 9 b's' refl) refl (omega arith)

pub client_file-ne-torfile : (name : String) → join authorized_clients_dir name ≢ tor_file_path
client_file-ne-torfile name =
    differ_at 9 (join authorized_clients_dir name) tor_file_path b's' b't'
      (byte_of_join authorized_clients_dir name 9 b's' refl) refl (omega arith)

pub client_file-ne-ob_config : (name : String) → join authorized_clients_dir name ≢ ob_config_path
client_file-ne-ob_config name =
    differ_at 17 (join authorized_clients_dir name) ob_config_path b'a' b'o'
      (byte_of_join authorized_clients_dir name 17 b'a' refl) refl (omega arith)

pub ob_config-ne-torfile : ob_config_path ≢ tor_file_path
ob_config-ne-torfile = differ_at 9 ob_config_path tor_file_path b's' b't' refl refl (omega arith)

pub unequal : (s t : String) → str_eq s t ≡ false → s ≢ t
unequal s t h e = let p : str_eq s t ≡ true = (eq_iff s t).1 e in cc

-- The names of the keys' files are not that of the master's address.
pub key_file-ne-ob_config :
    (name : String)
    → str_eq (join "/run/tor/service" name) ob_config_path ≡ false
    → join "/run/tor/service" name ≢ ob_config_path
key_file-ne-ob_config name h = unequal (join "/run/tor/service" name) ob_config_path h
