-- ===== src/Agents/Tor/Files.antt =====
-- copyIfNotExist and serviceReload of agents/tor/local/controller.go.
pub mod Copied
pub mod Elsewhere
use tor_controller.Base.{ℕ, String, Bool, true, false, Option, none, some, if◌then◌else◌}
use tor_controller.Base.Exec.{Result, ok, err, panic, Exec, pure, raise, crash, attempt, ◌>>=◌}
use tor_controller.Base.Disk.{
  Disk, File, Os, IoError, is_not_exist, open_file, write_file, stat, chmod,
}

-- A call that an agent makes on the disk. The error is its message.
abbrev pub Io : Type 0 → Type 0
Io A = Exec Disk String A

-- errors.Wrap of an error that is not nil.
abbrev pub wrapped : String → IoError → String
wrapped m e = m

abbrev pub default_unix_permission : ℕ
default_unix_permission = 384  -- 0o600

-- The value and the error of a call, with the disk after it.
abbrev pub reading : {A : Type 0} → Exec Disk IoError A → Io (Result IoError A)
reading m d = (ok (m d).0, (m d).1)

module _ (os : Os) where
  unfoldable pub on_chmod : Result IoError (Unit {0}) → Io (Unit {0})
  on_chmod (ok a) = pure tt
  on_chmod (err e) = raise (wrapped "setting destination file mode" e)
  on_chmod panic = crash

  unfoldable pub on_source_info : String → Result IoError (Option File) → Io (Unit {0})
  unfolding on_chmod
  on_source_info dst (ok none) = pure tt
  on_source_info dst (ok (some f)) = reading (chmod os dst f.mode) >>= on_chmod
  on_source_info dst (err e) = raise (wrapped "getting source file info" e)
  on_source_info dst panic = crash

  unfoldable pub on_copy : String → String → Result IoError (Unit {0}) → Io (Unit {0})
  unfolding on_source_info
  on_copy src dst (ok a) = reading (stat os src) >>= on_source_info dst
  on_copy src dst (err e) = raise (wrapped "copying file" e)
  on_copy src dst panic = crash

  -- The destination is created, and then the source's text is copied to it.
  unfoldable pub on_create : String → String → File → Result IoError (Unit {0}) → Io (Unit {0})
  unfolding on_copy
  on_create src dst f (ok a) = reading (write_file os dst f.text 438) >>= on_copy src dst
  on_create src dst f (err e) = raise (wrapped "creating destination file" e)
  on_create src dst f panic = crash

  unfoldable pub on_open : String → String → Result IoError File → Io (Unit {0})
  unfolding on_create
  on_open src dst (ok f) = reading (write_file os dst "" 438) >>= on_create src dst f  -- 0o666
  on_open src dst (err e) = raise (wrapped "opening source file" e)
  on_open src dst panic = crash

  -- `errors.Wrap` of a nil error is nil: a destination that exists is left as it is.
  unfoldable pub on_destination : String → String → Result IoError (Option File) → Io (Unit {0})
  unfolding on_open
  on_destination src dst (ok f) = pure tt
  on_destination src dst (err e) =
      if is_not_exist e
      then reading (open_file os src) >>= on_open src dst
      else raise (wrapped "checking if file exists" e)
  on_destination src dst panic = crash

  unfoldable pub copy_if_not_exist : String → String → Io (Unit {0})
  unfolding on_destination
  copy_if_not_exist src dst = reading (stat os dst) >>= on_destination src dst
