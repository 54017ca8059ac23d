-- ===== src/Controllers/Ensure/Keeps.antt =====
-- Invariants of actions over the cluster: one rule for each way to build an action.
use tor_controller.Base.{◌≡◌, refl, Bool, true, false, if◌then◌else◌, Option, none, some}
use tor_controller.Base.Exec.{
  Result, ok, err, panic, Exec, pure, run, crash, raise, attempt, continue, return_error, ◌>>=◌,
}

-- `m` keeps `P`, however it ends.
pub record Keeps {S E A : Type 0} (P : S → Type 0) (m : Exec S E A) : Type 0 where
  pub at : (s : S) → P s → P (m s).1

module _ {S E A : Type 0} {P : S → Type 0} where
  pub Keeps-pure : (a : A) → Keeps {E = E} P (pure a)
  unfolding pure
  Keeps-pure a = record { at = λ s h. h }

  pub Keeps-run : (f : S → A × S) → ((s : S) → P s → P (f s).1) → Keeps {E = E} P (run f)
  unfolding run
  Keeps-run f h = record { at = h }

  pub Keeps-raise : (e : E) → Keeps {A = A} P (raise e)
  unfolding raise
  Keeps-raise e = record { at = λ s h. h }

  pub Keeps-crash : Keeps {E = E} {A = A} P crash
  unfolding crash
  Keeps-crash = record { at = λ s h. h }

  pub Keeps-attempt : (m : Exec S E A) → Keeps P m → Keeps P (attempt m)
  unfolding attempt
  Keeps-attempt m k = record { at = λ s h. k.at s h }

  pub Keeps-if :
      (test : Bool) (yes_part no_part : Exec S E A)
      → (test ≡ true → Keeps P yes_part)
      → (test ≡ false → Keeps P no_part)
      → Keeps P (if test then yes_part else no_part)
  Keeps-if false yes_part no_part on_true on_false = on_false refl
  Keeps-if true yes_part no_part on_true on_false = on_true refl

module _ {S E : Type 0} {P : S → Type 0} where
  pub Keeps-return_error : (e : Option E) → Keeps P (return_error e)
  unfolding return_error
  Keeps-return_error none = record { at = λ s h. h }
  Keeps-return_error (some e) = record { at = λ s h. h }

continue-keeps :
    {S E A B : Type 0} (P : S → Type 0) (r : Result E A) (f : A → Exec S E B) (s : S)
    → ((a : A) → r ≡ ok a → P (f a s).1)
    → P s
    → P (continue r f s).1
continue-keeps P (ok a) f s k h = k a refl
continue-keeps P (err e) f s k h = h
continue-keeps P panic f s k h = h

-- One run of a block: what follows may use what the first part answered.
pub bind_keeps :
    {S E A B : Type 0} (P : S → Type 0) (m : Exec S E A) (f : A → Exec S E B) (s : S)
    → P (m s).1
    → ((a : A) → (m s).0 ≡ ok a → P (f a (m s).1).1)
    → P ((m >>= f) s).1
unfolding ◌>>=◌
bind_keeps P m f s h k = continue-keeps P (m s).0 f (m s).1 k h

module _ {S E A B : Type 0} {P : S → Type 0} where
  -- What follows may use what the first part answered, and from which state.
  pub Keeps-bind_at :
      (m : Exec S E A) (f : A → Exec S E B)
      → Keeps P m
      → ((s : S) (a : A) → P s → (m s).0 ≡ ok a → P (f a (m s).1).1)
      → Keeps P (m >>= f)
  Keeps-bind_at m f km kf = record {
    at = λ s h. bind_keeps P m f s (km.at s h) (λ a e. kf s a h e);
  }

  pub Keeps-bind :
      (m : Exec S E A) (f : A → Exec S E B)
      → Keeps P m
      → ((a : A) → Keeps P (f a))
      → Keeps P (m >>= f)
  Keeps-bind m f km kf = Keeps-bind_at m f km (λ s a h e. (kf a).at (m s).1 (km.at s h))

pub ruleset keeps_rules =
    (Keeps-pure, Keeps-raise, Keeps-crash, Keeps-attempt, Keeps-if, Keeps-return_error, Keeps-bind)
