-- ===== src/Base/Disk.antt =====
-- What the agents use of Go's package os: texts with their modes under paths, and the errors that
-- the calls return.
use Prim.Native.Nat.{ℕ}
use Prim.Native.String.{String}
use mathlib.Core.Path.{◌≡◌, refl}
use mathlib.Core.Logic.{◌≢◌, inl, inr}
use mathlib.Core.Bool.{Bool, true, false, ◌||◌}
use mathlib.Core.Option.{Option, none, some}
use mathlib.Core.List.{List}
use tor_controller.Base.Exec.{Result, ok, err, panic, Exec}
use tor_controller.Base.Tests.{Bool-cases, if◌then◌else◌}
use text.Mathlib.Text.{◌==◌}
use text.Mathlib.TextEquality.{eq_iff}

pub record File : Type 0 where
  pub text : String
  pub mode : ℕ

-- The files, and the paths that are directories.
pub record Disk : Type 0 where
  pub files : String → Option File
  pub is_dir : String → Bool

pub data IoError : Type 0 where
  not_exist : IoError
  trouble : String → IoError

-- os.IsNotExist
abbrev pub is_not_exist : IoError → Bool
is_not_exist not_exist = true
is_not_exist (trouble m) = false

pub record Entry : Type 0 where
  pub name : String
  pub directory : Bool

-- What the operating system does beyond the files' texts: the calls that fail for a reason of their
-- own, and then, for a write, what it leaves under the path; the lists of directories; and the
-- mode that a new file gets for the mode that is asked for.
pub record Os : Type 0 where
  pub read_fault : String → Disk → Option String
  pub stat_fault : String → Disk → Option String
  pub write_fault : String → Disk → Option (String × Option File)
  pub mkdir_fault : String → Disk → Option String
  pub chmod_fault : String → Disk → Option String
  pub read_dir : String → Disk → Result IoError (List Entry)
  pub created_mode : ℕ → ℕ

-- A call, with the error as it comes from the system.
abbrev pub Call : Type 0 → Type 0
Call A = Exec Disk IoError A

unfoldable pub put : String → Option File → Disk → Disk
put p f d = record d { files = λ q. if p == q then f else d.files q }

-- A write elsewhere leaves a file as it is.
pub put-apart :
    (p q : String) (f : Option File) (d : Disk) → p ≢ q → (put p f d).files q ≡ d.files q
unfolding put
put-apart p q f d ne = elim (Bool-cases (p == q)) [
  | inl e ↦ absurd (ne ((eq_iff p q).0 e))
  | inr e ↦ rw e
]

pub put_self : (p : String) (f : Option File) (d : Disk) → (put p f d).files p ≡ f
unfolding put
put_self p f d = let e : (p == p) ≡ true = (eq_iff p p).1 refl in rw e

abbrev pub found_file : Option File → Result IoError File
found_file none = err not_exist
found_file (some f) = ok f

abbrev pub faulty : {A : Type 0} → Option String → Result IoError A → Result IoError A
faulty none r = r
faulty (some m) r = err (trouble m)

abbrev pub text_of : Result IoError File → Result IoError String
text_of (ok f) = ok f.text
text_of (err e) = err e
text_of panic = panic

abbrev pub mode_after : Os → Option File → ℕ → ℕ
mode_after os none mode = os.created_mode mode
mode_after os (some f) mode = f.mode

abbrev pub finish_write :
    Option (String × Option File) → String → File → Disk → Result IoError (Unit {0}) × Disk
finish_write none p f d = (ok tt, put p (some f) d)
finish_write (some (m, left)) p f d = (err (trouble m), put p left d)

abbrev pub stat_found : Option File → Bool → Result IoError (Option File)
stat_found (some f) b = ok (some f)
stat_found none true = ok none
stat_found none false = err not_exist

abbrev pub finish_mkdir : Option String → String → Disk → Result IoError (Unit {0}) × Disk
finish_mkdir none p d = (ok tt, record d { is_dir = λ q. p == q || d.is_dir q })
finish_mkdir (some m) p d = (err (trouble m), d)

abbrev pub with_mode : ℕ → Option File → Option File
with_mode mode none = none
with_mode mode (some f) = some (record f { mode = mode })

abbrev pub finish_chmod : Option String → String → ℕ → Disk → Result IoError (Unit {0}) × Disk
finish_chmod none p mode d = (ok tt, put p (with_mode mode (d.files p)) d)
finish_chmod (some m) p mode d = (err (trouble m), d)

module _ (os : Os) where
  -- The file that a call reads.
  unfoldable pub open_file : String → Call File
  open_file p d = (faulty (os.read_fault p d) (found_file (d.files p)), d)

  unfoldable pub read_file : String → Call String
  unfolding open_file
  read_file p d = (text_of (open_file p d).0, d)

  -- os.WriteFile, and os.Create followed by a copy: a file that exists keeps its mode.
  unfoldable pub write_file : String → String → ℕ → Call (Unit {0})
  unfolding put
  write_file p text mode d =
      finish_write (os.write_fault p d) p
        (record { text = text; mode = mode_after os (d.files p) mode }) d

  -- The file, or `none` for a directory.
  unfoldable pub stat : String → Call (Option File)
  stat p d = (faulty (os.stat_fault p d) (stat_found (d.files p) (d.is_dir p)), d)

  unfoldable pub mkdir : String → Call (Unit {0})
  mkdir p d = finish_mkdir (os.mkdir_fault p d) p d

  unfoldable pub chmod : String → ℕ → Call (Unit {0})
  unfolding put
  chmod p mode d = finish_chmod (os.chmod_fault p d) p mode d

  unfoldable pub read_dir : String → Call (List Entry)
  read_dir p d = (os.read_dir p d, d)
