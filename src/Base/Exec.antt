-- ===== src/Base/Exec.antt =====
-- Go functions that return an error and act on a world outside the program. What was done before
-- an error stays done, so the state comes back beside the error too. A nil dereference is `panic`.
pub mod Leads
use mathlib.Core.Option.{Option, none, some}

pub data Result (E A : Type 0) : Type 0 where
  ok : A → Result E A
  err : E → Result E A
  panic : Result E A

abbrev pub Exec : Type 0 → Type 0 → Type 0 → Type 0
Exec S E A = S → Result E A × S

-- `v, err := f()`: the caller reads the error as a value; a panic goes on.
abbrev pub caught : {E A : Type 0} → Result E A → Result E (Result E A)
caught (ok a) = ok (ok a)
caught (err e) = ok (err e)
caught panic = panic

module _ {S E A : Type 0} where
  unfoldable pub pure : A → Exec S E A
  pure a s = (ok a, s)

  -- A step that cannot fail.
  unfoldable pub run : (S → A × S) → Exec S E A
  run f s = (ok (f s).0, (f s).1)

  unfoldable pub raise : E → Exec S E A
  raise e s = (err e, s)

  unfoldable pub crash : Exec S E A
  crash s = (panic, s)

  unfoldable pub attempt : Exec S E A → Exec S E (Result E A)
  attempt m s = (caught (m s).0, (m s).1)

-- `return err`, where `err` may be nil.
module _ {S E : Type 0} where
  unfoldable pub return_error : Option E → Exec S E (Unit {0})
  return_error none s = (ok tt, s)
  return_error (some e) s = (err e, s)

module _ {S E A B : Type 0} where
  abbrev pub continue : Result E A → (A → Exec S E B) → Exec S E B
  continue (ok a) f s = f a s
  continue (err e) f s = (err e, s)
  continue panic f s = (panic, s)

  infixl 10 ◌>>=◌ ◌>>◌
  unfoldable pub ◌>>=◌ : Exec S E A → (A → Exec S E B) → Exec S E B
  unfolding pure run raise crash attempt return_error
  ◌>>=◌ m f s = continue (m s).0 f (m s).1

  abbrev pub ◌>>◌ : Exec S E A → Exec S E B → Exec S E B
  m >> n = m >>= λ _. n
