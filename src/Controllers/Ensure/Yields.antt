-- ===== src/Controllers/Ensure/Yields.antt =====
-- What holds of the value that an action returns, whatever the state, if it returns one.
use tor_controller.Base.{◌≡◌, refl, Bool, true, false, if◌then◌else◌}
use tor_controller.Base.Exec.{Result, ok, err, panic, Exec, pure, crash, raise, continue, ◌>>=◌}

pub record Yields {S E A : Type 0} (Q : A → Type 0) (m : Exec S E A) : Type 0 where
  pub at : (s : S) (a : A) → (m s).0 ≡ ok a → Q a

ok_inj : {E A : Type 0} (Q : A → Type 0) (a b : A) → ◌≡◌ {A = Result E A} (ok a) (ok b) → Q a → Q b
ok_inj Q a b e q = let p : a ≡ b = cc in rw (← p) q

continue-yields :
    {S E A B : Type 0} (Q : B → Type 0) (f : A → Exec S E B) (r : Result E A)
    → ((a : A) → r ≡ ok a → Yields Q (f a))
    → (s : S) (b : B) → (continue r f s).0 ≡ ok b
    → Q b
continue-yields Q f (ok a) k s b h = (k a refl).at s b h
continue-yields Q f (err e) k s b h = absurd (cc)
continue-yields Q f panic k s b h = absurd (cc)

module _ {S E A : Type 0} {Q : A → Type 0} where
  pub Yields-pure : (a : A) → Q a → Yields {S = S} {E = E} Q (pure a)
  unfolding pure
  Yields-pure a q = record { at = λ s b h. ok_inj {E = E} Q a b h q }

  pub Yields-raise : (e : E) → Yields {S = S} Q (raise e)
  unfolding raise
  Yields-raise e = record { at = λ s b h. absurd (cc) }

  pub Yields-crash : Yields {S = S} {E = E} Q crash
  unfolding crash
  Yields-crash = record { at = λ s b h. absurd (cc) }

  pub Yields-if :
      (b : Bool) (m n : Exec S E A) → Yields Q m → Yields Q n → Yields Q (if b then m else n)
  Yields-if true m n km kn = km
  Yields-if false m n km kn = kn

module _ {S E A B : Type 0} {Q : B → Type 0} where
  pub Yields-bind :
      (m : Exec S E A) (f : A → Exec S E B) → ((a : A) → Yields Q (f a)) → Yields Q (m >>= f)
  unfolding ◌>>=◌
  Yields-bind m f k = record { at = λ s b h. continue-yields Q f (m s).0 (λ a e. k a) (m s).1 b h }

  -- What follows may use what holds of the first part's value.
  pub Yields-then :
      {R : A → Type 0} (m : Exec S E A) (f : A → Exec S E B)
      → Yields R m
      → ((a : A) → R a → Yields Q (f a))
      → Yields Q (m >>= f)
  unfolding ◌>>=◌
  Yields-then m f r k = record {
    at = λ s b h. continue-yields Q f (m s).0 (λ a e. k a (r.at s a e)) (m s).1 b h;
  }
