-- ===== src/Agents/Tor/Controller/Kept.antt =====
-- The copies that sync makes leave the torfile and the file of the master's address as they are.
use tor_controller.Base.{◌≢◌, String, not, ◌&&◌, Option, none, some, List, [], ◌∷◌}
use tor_controller.Base.Exec.{Result, ok, err, panic, attempt, ◌>>=◌}
use tor_controller.Base.Disk.{
  Disk, File, Os, Entry, IoError, is_not_exist, stat, mkdir, read_dir, finish_mkdir,
}
use tor_controller.Apis.Types.{OnionService}
use tor_controller.Apis.OnionServiceUtil.{get_version}
use tor_controller.Controllers.Ensure.Keeps.{
  Keeps, Keeps-pure, Keeps-crash, Keeps-if, Keeps-bind, Keeps-attempt,
}
use tor_controller.Agents.Tor.Text.{has_suffix}
use tor_controller.Agents.Tor.Files.{Io, reading, copy_if_not_exist}
use tor_controller.Agents.Tor.Files.Elsewhere.{At, Keeps-reading, copy_if_not_exist-Keeps}
use tor_controller.Agents.Tor.Controller.{
  join, authorized_clients_dir, logged, copy_key, copy_keys, public_key_file_name,
  private_key_file_name, on_mkdir, on_clients_dir, copy_clients, on_listing,
  copy_authorized_clients,
}

module _ (p : String) (Q : Option File → Type 0) (os : Os) where
  Keeps-logged : (m : Io (Unit {0})) → Keeps (At p Q) m → Keeps (At p Q) (logged m)
  Keeps-logged m k = Keeps-bind (attempt m) _ (Keeps-attempt m k) (λ r. Keeps-pure tt)

  copy_key-Keeps :
      (name : String) → join "/run/tor/service" name ≢ p → Keeps (At p Q) (copy_key os name)
  unfolding copy_key
  copy_key-Keeps name apart =
      Keeps-logged
        (copy_if_not_exist os (join "/run/tor/service/key" name) (join "/run/tor/service" name))
        (copy_if_not_exist-Keeps p Q os (join "/run/tor/service" name) apart
          (join "/run/tor/service/key" name))

  pub copy_keys-Keeps :
      (onion : OnionService)
      → join "/run/tor/service" "hostname" ≢ p
      → join "/run/tor/service" (public_key_file_name (get_version onion.spec)) ≢ p
      → join "/run/tor/service" (private_key_file_name (get_version onion.spec)) ≢ p
      → Keeps (At p Q) (copy_keys os onion)
  unfolding copy_keys
  copy_keys-Keeps onion a b c =
      Keeps-bind (copy_key os "hostname") _ (copy_key-Keeps "hostname" a) (λ _.
        Keeps-bind (copy_key os (public_key_file_name (get_version onion.spec))) _
          (copy_key-Keeps (public_key_file_name (get_version onion.spec)) b)
          (λ _. copy_key-Keeps (private_key_file_name (get_version onion.spec)) c))

  on_mkdir-Keeps : (r : Result IoError (Unit {0})) → Keeps (At p Q) (on_mkdir os r)
  unfolding on_mkdir
  on_mkdir-Keeps (ok a) = Keeps-pure tt
  on_mkdir-Keeps (err e) = Keeps-crash
  on_mkdir-Keeps panic = Keeps-crash

  mkdir-At : (c : Option String) (q : String) (d : Disk) → At p Q d → At p Q (finish_mkdir c q d).1
  mkdir-At none q d h = h
  mkdir-At (some m) q d h = h

  on_clients_dir-Keeps : (r : Result IoError (Option File)) → Keeps (At p Q) (on_clients_dir os r)
  unfolding on_clients_dir mkdir
  on_clients_dir-Keeps (ok f) = Keeps-pure tt
  on_clients_dir-Keeps (err e) =
      Keeps-if (is_not_exist e) _ _
        (λ _.
          Keeps-bind (reading (mkdir os authorized_clients_dir)) (on_mkdir os)
            (Keeps-reading (mkdir os authorized_clients_dir)
              (λ d. mkdir-At (os.mkdir_fault authorized_clients_dir d) authorized_clients_dir d))
            on_mkdir-Keeps)
        (λ _. Keeps-pure tt)
  on_clients_dir-Keeps panic = Keeps-crash

  module _ (apart : (name : String) → join authorized_clients_dir name ≢ p) where
    copy_clients-Keeps : (entries : List Entry) → Keeps (At p Q) (copy_clients os entries)
    unfolding copy_clients
    copy_clients-Keeps [] = Keeps-pure tt
    copy_clients-Keeps (entry ∷ entries) =
        let source = join "/run/tor/service/.authorized_clients" entry.name in
        let target = join authorized_clients_dir entry.name in
        Keeps-if (not entry.directory && has_suffix entry.name ".auth") _ _
          (λ _.
            Keeps-bind (logged (copy_if_not_exist os source target)) _
              (Keeps-logged (copy_if_not_exist os source target)
                (copy_if_not_exist-Keeps p Q os target (apart entry.name) source))
              (λ _. copy_clients-Keeps entries))
          (λ _. copy_clients-Keeps entries)

    on_listing-Keeps : (r : Result IoError (List Entry)) → Keeps (At p Q) (on_listing os r)
    unfolding on_listing stat
    on_listing-Keeps (ok entries) =
        Keeps-bind (reading (stat os authorized_clients_dir) >>= on_clients_dir os) _
          (Keeps-bind (reading (stat os authorized_clients_dir)) (on_clients_dir os)
            (Keeps-reading (stat os authorized_clients_dir) (λ d h. h)) on_clients_dir-Keeps)
          (λ _. copy_clients-Keeps entries)
    on_listing-Keeps (err e) = Keeps-pure tt
    on_listing-Keeps panic = Keeps-crash

    pub copy_authorized_clients-Keeps : Keeps (At p Q) (copy_authorized_clients os)
    unfolding copy_authorized_clients read_dir
    copy_authorized_clients-Keeps =
        Keeps-bind (reading (read_dir os "/run/tor/service/.authorized_clients/")) (on_listing os)
          (Keeps-reading (read_dir os "/run/tor/service/.authorized_clients/") (λ d h. h))
          on_listing-Keeps
