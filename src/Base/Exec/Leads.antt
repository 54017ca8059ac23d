-- ===== src/Base/Exec/Leads.antt =====
-- What holds after an action that returns a value.
use mathlib.Core.Path.{◌≡◌, refl}
use mathlib.Core.Bool.{Bool, true, false}
use tor_controller.Base.Tests.{if◌then◌else◌}
use tor_controller.Base.Exec.{Result, ok, err, panic, Exec, pure, raise, crash, continue, ◌>>=◌}

-- From a state with `P`, whatever `m` returns has `Q` with the state that it leaves.
pub record Leads {S E A : Type 0} (P : S → Type 0) (m : Exec S E A) (Q : A → S → Type 0)
    : Type 0 where
  pub at : (s : S) (a : A) → P s → (m s).0 ≡ ok a → Q a (m s).1

same_value :
    {E A : Type 0} (Q : A → Type 0) (a b : A) → ◌≡◌ {A = Result E A} (ok a) (ok b) → Q a → Q b
same_value Q a b e q = let p : a ≡ b = cc in rw (← p) q

continue-leads :
    {S E A B : Type 0} (R : B → S → Type 0) (r : Result E A) (f : A → Exec S E B) (s : S) (b : B)
    → ((a : A) → r ≡ ok a → (f a s).0 ≡ ok b → R b (f a s).1)
    → (continue r f s).0 ≡ ok b
    → R b (continue r f s).1
continue-leads R (ok a) f s b k h = k a refl h
continue-leads R (err e) f s b k h = absurd (cc)
continue-leads R panic f s b k h = absurd (cc)

module _ {S E A : Type 0} {P : S → Type 0} {Q : A → S → Type 0} where
  pub Leads-pure : (a : A) → ((s : S) → P s → Q a s) → Leads {E = E} P (pure a) Q
  unfolding pure
  Leads-pure a k = record { at = λ s b p h. same_value {E = E} (λ c. Q c s) a b h (k s p) }

  pub Leads-raise : (e : E) → Leads P (raise e) Q
  unfolding raise
  Leads-raise e = record { at = λ s b p h. absurd (cc) }

  pub Leads-crash : Leads {E = E} P crash Q
  unfolding crash
  Leads-crash = record { at = λ s b p h. absurd (cc) }

  pub Leads-if :
      (test : Bool) (m n : Exec S E A)
      → (test ≡ true → Leads P m Q)
      → (test ≡ false → Leads P n Q)
      → Leads P (if test then m else n) Q
  Leads-if true m n k l = k refl
  Leads-if false m n k l = l refl

module _ {S E A B : Type 0} {P : S → Type 0} {Q : A → S → Type 0} {R : B → S → Type 0} where
  pub Leads-bind :
      (m : Exec S E A) (f : A → Exec S E B)
      → Leads P m Q
      → ((a : A) → Leads (Q a) (f a) R)
      → Leads P (m >>= f) R
  unfolding ◌>>=◌
  Leads-bind m f km kf = record {
    at = λ s b p h.
        continue-leads R (m s).0 f (m s).1 b (λ a e g. (kf a).at (m s).1 b (km.at s a p e) g) h;
  }

module _ {S E A : Type 0} where
  pub Leads-weaken :
      {P P' : S → Type 0} {Q Q' : A → S → Type 0} (m : Exec S E A)
      → ((s : S) → P' s → P s)
      → ((a : A) (s : S) → Q a s → Q' a s)
      → Leads P m Q
      → Leads P' m Q'
  Leads-weaken m into out k = record { at = λ s a p h. out a (m s).1 (k.at s a (into s p) h) }

  -- What `m` keeps, however it ends, holds as well.
  pub Leads-and :
      {P R : S → Type 0} {Q : A → S → Type 0} (m : Exec S E A)
      → ((s : S) → R s → R (m s).1)
      → Leads P m Q
      → Leads (λ s. P s × R s) m (λ a s. Q a s × R s)
  Leads-and m keep k = record { at = λ s a p h. (k.at s a p.0 h, keep s p.1) }

  pub Leads-keeps :
      {R : S → Type 0} (m : Exec S E A) → ((s : S) → R s → R (m s).1) → Leads R m (λ a. R)
  Leads-keeps m keep = record { at = λ s a p h. keep s p }
