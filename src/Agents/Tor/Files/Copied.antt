-- ===== src/Agents/Tor/Files/Copied.antt =====
-- What copyIfNotExist leaves under its destination and elsewhere.
use tor_controller.Base.{ℕ, ◌≡◌, ◌≢◌, refl, ap, ◌∙◌, String, Bool, Option, none, some}
use tor_controller.Base.Exec.{Result, ok, err, raise, pure, ◌>>=◌}
use tor_controller.Base.Disk.{
  Disk, File, Os, not_exist, open_file, write_file, stat, chmod, put, put-apart, put_self,
  finish_chmod, finish_write, faulty, stat_found, found_file, with_mode,
}
use tor_controller.Agents.Tor.Files.{
  on_chmod, on_source_info, on_copy, on_create, on_open, on_destination, copy_if_not_exist,
}

module _ (os : Os) (src dst : String) (apart : dst ≢ src) where
  -- What a call that returns no error leaves under the destination.
  abbrev Leaves : Result String (Unit {0}) × Disk → File → Type 0
  Leaves r f = r.0 ≡ ok tt → r.1.files dst ≡ some f

  chmod-Leaves :
      (c : Option String) (g : File) (mode : ℕ) (d : Disk)
      → d.files dst ≡ some g
      → Leaves
          (on_chmod os (finish_chmod c dst mode d).0 (finish_chmod c dst mode d).1)
          (record g { mode = mode })
  unfolding on_chmod pure raise
  chmod-Leaves none g mode d h r = put_self dst _ d ∙ ap (with_mode mode) h
  chmod-Leaves (some m) g mode d h r = absurd (cc)

  info-Leaves :
      (c : Option String) (b : Bool) (g f : File) (d : Disk)
      → d.files dst ≡ some g
      → Leaves
          (on_source_info os dst (faulty c (stat_found (some f) b)) d)
          (record g { mode = f.mode })
  unfolding on_source_info chmod raise ◌>>=◌
  info-Leaves none b g f d h = chmod-Leaves (os.chmod_fault dst d) g f.mode d h
  info-Leaves (some m) b g f d h = λ r. absurd (cc)

  abbrev filled : ℕ → String → File
  filled mode text = record { text = text; mode = mode }

  copy-Leaves :
      (c : Option (String × Option File)) (f : File) (mode : ℕ) (d : Disk)
      → d.files src ≡ some f
      → Leaves
          (on_copy os src dst
            (finish_write c dst (filled mode f.text) d).0
            (finish_write c dst (filled mode f.text) d).1)
          f
  unfolding on_copy stat raise ◌>>=◌
  copy-Leaves none f mode d h =
      let e = put dst (some (filled mode f.text)) d in
      rw (put-apart dst src (some (filled mode f.text)) d apart ∙ h) (
        info-Leaves (os.stat_fault src e) (e.is_dir src) (filled mode f.text) f e
          (put_self dst (some (filled mode f.text)) d))
  copy-Leaves (some (m, left)) f mode d h = λ r. absurd (cc)

  create-Leaves :
      (c : Option (String × Option File)) (f : File) (d : Disk)
      → d.files src ≡ some f
      → Leaves
          (on_create os src dst f
            (finish_write c dst (filled (os.created_mode 438) "") d).0
            (finish_write c dst (filled (os.created_mode 438) "") d).1)
          f
  unfolding on_create write_file raise ◌>>=◌
  create-Leaves none f d h =
      let empty = filled (os.created_mode 438) "" in
      let e = put dst (some empty) d in
      rw (put_self dst (some empty) d) (
        copy-Leaves (os.write_fault dst e) f (os.created_mode 438) e
          (put-apart dst src (some empty) d apart ∙ h))
  create-Leaves (some (m, left)) f d h = λ r. absurd (cc)

  -- Where the destination does not exist yet, the source was there and both are the same then.
  open-leaves :
      (c : Option String) (o : Option File) (d : Disk)
      → d.files src ≡ o
      → d.files dst ≡ none
      → (on_open os src dst (faulty c (found_file o)) d).0 ≡ ok tt
      → (f : File) × (o ≡ some f)
        × ((on_open os src dst (faulty c (found_file o)) d).1.files dst ≡ some f)
  unfolding on_open write_file raise ◌>>=◌
  open-leaves none none d h k = λ r. absurd (cc)
  open-leaves none (some f) d h k =
      rw k (λ r. (f, refl, create-Leaves (os.write_fault dst d) f d h r))
  open-leaves (some m) o d h k = λ r. absurd (cc)

  missing :
      (c : Option String) (o : Option File) (b : Bool)
      → faulty c (stat_found o b) ≡ err not_exist
      → o ≡ none
  missing c none b h = refl
  missing none (some f) b h = absurd (cc)
  missing (some m) (some f) b h = absurd (cc)

  -- If the destination does not exist and the call returns no error, the source exists and the
  -- destination has its text and its mode.
  pub copy_if_not_exist-copies :
      (d : Disk)
      → (stat os dst d).0 ≡ err not_exist
      → (copy_if_not_exist os src dst d).0 ≡ ok tt
      → (f : File) × (d.files src ≡ some f)
        × ((copy_if_not_exist os src dst d).1.files dst ≡ some f)
  unfolding copy_if_not_exist on_destination open_file stat ◌>>=◌
  copy_if_not_exist-copies d s =
      let k : d.files dst ≡ none = missing (os.stat_fault dst d) (d.files dst) (d.is_dir dst) s in
      rw s (open-leaves (os.read_fault src d) (d.files src) d refl k)

  -- A destination that exists is left as it is, with all else on the disk.
  kept :
      (c : Option String) (f : File) (b : Bool) (d : Disk)
      → (on_destination os src dst (faulty c (stat_found (some f) b)) d).1 ≡ d
  unfolding on_destination pure raise
  kept none f b d = refl
  kept (some m) f b d = refl

  pub copy_if_not_exist-exists :
      (d : Disk) (f : File) → d.files dst ≡ some f → (copy_if_not_exist os src dst d).1 ≡ d
  unfolding copy_if_not_exist stat ◌>>=◌
  copy_if_not_exist-exists d f h = rw h (kept (os.stat_fault dst d) f (d.is_dir dst) d)
