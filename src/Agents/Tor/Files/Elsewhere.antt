-- ===== src/Agents/Tor/Files/Elsewhere.antt =====
-- Calls on one path leave the file under another path as it is.
use tor_controller.Base.{ℕ, ◌≢◌, subst, sym, String, Option, none, some}
use tor_controller.Base.Exec.{Result, ok, err, panic, Exec}
use tor_controller.Base.Disk.{
  Disk, File, Os, IoError, is_not_exist, open_file, write_file, stat, chmod, put, put-apart,
  finish_write, finish_chmod, with_mode,
}
use tor_controller.Controllers.Ensure.Keeps.{
  Keeps, Keeps-pure, Keeps-raise, Keeps-crash, Keeps-if, Keeps-bind,
}
use tor_controller.Agents.Tor.Files.{
  wrapped, reading, on_chmod, on_source_info, on_copy, on_create, on_open, on_destination,
  copy_if_not_exist,
}

pub Keeps-reading :
    {A : Type 0} {P : Disk → Type 0} (m : Exec Disk IoError A)
    → ((d : Disk) → P d → P (m d).1)
    → Keeps P (reading m)
Keeps-reading m h = record { at = h }

module _ (p : String) (Q : Option File → Type 0) where
  -- What is said of the file under the path.
  abbrev pub At : Disk → Type 0
  At d = Q (d.files p)

module _ (p : String) (Q : Option File → Type 0) (os : Os) (dst : String) (apart : dst ≢ p) where
  put-At : (f : Option File) (d : Disk) → At p Q d → At p Q (put dst f d)
  put-At f d h = subst Q (sym (put-apart dst p f d apart)) h

  write-At :
      (c : Option (String × Option File)) (f : File) (d : Disk)
      → At p Q d
      → At p Q (finish_write c dst f d).1
  write-At none f d h = put-At (some f) d h
  write-At (some (m, left)) f d h = put-At left d h

  chmod-At :
      (c : Option String) (mode : ℕ) (d : Disk) → At p Q d → At p Q (finish_chmod c dst mode d).1
  chmod-At none mode d h = put-At (with_mode mode (d.files dst)) d h
  chmod-At (some m) mode d h = h

  pub Keeps-write :
      (text : String) (mode : ℕ) → Keeps (At p Q) (reading (write_file os dst text mode))
  unfolding write_file
  Keeps-write text mode =
      Keeps-reading (write_file os dst text mode) (λ d. write-At (os.write_fault dst d) _ d)

  Keeps-chmod : (mode : ℕ) → Keeps (At p Q) (reading (chmod os dst mode))
  unfolding chmod
  Keeps-chmod mode = Keeps-reading (chmod os dst mode) (λ d. chmod-At (os.chmod_fault dst d) mode d)

  on_chmod-Keeps : (r : Result IoError (Unit {0})) → Keeps (At p Q) (on_chmod os r)
  unfolding on_chmod
  on_chmod-Keeps (ok a) = Keeps-pure tt
  on_chmod-Keeps (err e) = Keeps-raise (wrapped "setting destination file mode" e)
  on_chmod-Keeps panic = Keeps-crash

  on_source_info-Keeps :
      (r : Result IoError (Option File)) → Keeps (At p Q) (on_source_info os dst r)
  unfolding on_source_info
  on_source_info-Keeps (ok none) = Keeps-pure tt
  on_source_info-Keeps (ok (some f)) =
      Keeps-bind (reading (chmod os dst f.mode)) (on_chmod os) (Keeps-chmod f.mode) on_chmod-Keeps
  on_source_info-Keeps (err e) = Keeps-raise (wrapped "getting source file info" e)
  on_source_info-Keeps panic = Keeps-crash

  module _ (src : String) where
    on_copy-Keeps : (r : Result IoError (Unit {0})) → Keeps (At p Q) (on_copy os src dst r)
    unfolding on_copy stat
    on_copy-Keeps (ok a) =
        Keeps-bind (reading (stat os src)) (on_source_info os dst)
          (Keeps-reading (stat os src) (λ d h. h)) on_source_info-Keeps
    on_copy-Keeps (err e) = Keeps-raise (wrapped "copying file" e)
    on_copy-Keeps panic = Keeps-crash

    on_create-Keeps :
        (f : File) (r : Result IoError (Unit {0})) → Keeps (At p Q) (on_create os src dst f r)
    unfolding on_create
    on_create-Keeps f (ok a) =
        Keeps-bind (reading (write_file os dst f.text 438)) (on_copy os src dst)
          (Keeps-write f.text 438) on_copy-Keeps
    on_create-Keeps f (err e) = Keeps-raise (wrapped "creating destination file" e)
    on_create-Keeps f panic = Keeps-crash

    on_open-Keeps : (r : Result IoError File) → Keeps (At p Q) (on_open os src dst r)
    unfolding on_open
    on_open-Keeps (ok f) =
        Keeps-bind (reading (write_file os dst "" 438)) (on_create os src dst f)
          (Keeps-write "" 438) (on_create-Keeps f)
    on_open-Keeps (err e) = Keeps-raise (wrapped "opening source file" e)
    on_open-Keeps panic = Keeps-crash

    on_destination-Keeps :
        (r : Result IoError (Option File)) → Keeps (At p Q) (on_destination os src dst r)
    unfolding on_destination open_file
    on_destination-Keeps (ok f) = Keeps-pure tt
    on_destination-Keeps (err e) =
        Keeps-if (is_not_exist e) _ _
          (λ _.
            Keeps-bind (reading (open_file os src)) (on_open os src dst)
              (Keeps-reading (open_file os src) (λ d h. h)) on_open-Keeps)
          (λ _. Keeps-raise (wrapped "checking if file exists" e))
    on_destination-Keeps panic = Keeps-crash

    -- A copy leaves every other file as it is.
    pub copy_if_not_exist-Keeps : Keeps (At p Q) (copy_if_not_exist os src dst)
    unfolding copy_if_not_exist stat
    copy_if_not_exist-Keeps =
        Keeps-bind (reading (stat os dst)) (on_destination os src dst)
          (Keeps-reading (stat os dst) (λ d h. h)) on_destination-Keeps
