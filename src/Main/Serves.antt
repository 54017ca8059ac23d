-- ===== src/Main/Serves.antt =====
-- What a process that ends without an error has started.
use tor_controller.Base.{
  List, [], ◌∷◌, ◌≡◌, ◌≢◌, refl, sym, ap, ◌∙◌, inl, inr, true, ◌⊎◌, str_eq, eq_iff, Bool-cases,
}
use tor_controller.Base.Exec.{
  Result, ok, err, panic, Exec, pure, raise, crash, attempt, caught, continue, ◌>>=◌,
}
use tor_controller.Kube.Client.{Kind, tor, onion_service, onion_balanced_service}
use tor_controller.Apis.Types.{ProjectConfig}
use tor_controller.Main.Chosen.{Chosen, in_namespace-Chosen}
use tor_controller.Main.{
  Options, Flags, Ctrl, generation_changed, without_leader_election, in_namespace, or_exit, Exit,
  no_options, no_config, failed_setup, on_complete, setup_with_manager, load, serve, main, exiting,
}

-- An action that returns a value, with the states before and after it.
abbrev pub Goes : {S E A : Type 0} → Exec S E A → S → A → S → Type 0
Goes m s a t = m s ≡ (ok a, t)

-- Actions that succeed one after the other, each in the state that the one before left.
pub data Row {S E : Type 0} : S → List (Exec S E (Unit {0})) → S → Type 0 where
  done : (s : S) → Row s [] s
  next :
      {s t u : S} {m : Exec S E (Unit {0})} {ms : List (Exec S E (Unit {0}))}
      → Goes m s tt t
      → Row t ms u
      → Row s (m ∷ ms) u

bind-Goes :
    {S E A B : Type 0} (m : Exec S E A) (f : A → Exec S E B) (s : S) (b : B) (u : S)
    → Goes (m >>= f) s b u
    → (a : A) × (t : S) × Goes m s a t × Goes (f a) t b u
unfolding ◌>>=◌
bind-Goes {S} {E} {A} m f s b u h = go (m s).0 (m s).1 refl h
  where
    go :
        (r : Result E A) (t : S)
        → m s ≡ (r, t)
        → continue r f t ≡ (ok b, u)
        → (a : A) × (t : S) × Goes m s a t × Goes (f a) t b u
    go (ok a) t e g = (a, t, e, g)
    go (err x) t e g = absurd (let q : ◌≡◌ {A = Result E _} (err x) (ok b) = ap (λ z. z.0) g in cc)
    go panic t e g = absurd (let q : ◌≡◌ {A = Result E _} panic (ok b) = ap (λ z. z.0) g in cc)

ok_inj : {E A : Type 0} {a b : A} → ◌≡◌ {A = Result E A} (ok a) (ok b) → a ≡ b
ok_inj h = cc

caught-ok : {E A : Type 0} (r r' : Result E A) → caught r ≡ ok r' → r ≡ r'
caught-ok (ok a) r' h = cc
caught-ok (err e) r' h = cc
caught-ok panic r' h = cc

module _ (C : Ctrl) where
  exiting-ok : {A : Type 0} (r : Result C.Error A) (a : A) → exiting C r ≡ ok a → r ≡ ok a
  exiting-ok (ok b) a h = let p : b ≡ a = cc in ap ok p
  exiting-ok (err e) a h = absurd (cc)
  exiting-ok panic a h = absurd (cc)

  or_exit-Goes :
      {A : Type 0} (m : Exec C.State C.Error A) (s : C.State) (a : A) (t : C.State)
      → Goes (or_exit C m) s a t
      → Goes m s a t
  unfolding or_exit
  or_exit-Goes m s a t h = λ i. (exiting-ok (m s).0 a (ap (λ z. z.0) h) i, (h i).1)

  on_complete-Goes :
      (k : Kind) (r : Result C.Error (Unit {0})) (s t : C.State)
      → Goes (on_complete C k r) s tt t
      → (r ≡ ok tt) × (s ≡ t)
  unfolding on_complete pure raise crash
  on_complete-Goes k (ok a) s t h = (refl, ap (λ z. z.1) h)
  on_complete-Goes k (err e) s t h = absurd (
      let q : ◌≡◌ {A = Result C.Error (Unit {0})} (err (C.wrap e (failed_setup C k))) (ok tt) =
        ap (λ z. z.0) h in
      cc)
  on_complete-Goes k panic s t h =
      absurd (let q : ◌≡◌ {A = Result C.Error (Unit {0})} panic (ok tt) = ap (λ z. z.0) h in cc)

  module _ (manager : C.Manager) (config : ProjectConfig) where
    abbrev completed : Kind → Exec C.State C.Error (Unit {0})
    completed k = C.complete manager k generation_changed config

    setup-Goes :
        (k : Kind) (s t : C.State)
        → Goes (or_exit C (setup_with_manager C manager k config)) s tt t
        → Goes (completed k) s tt t
    unfolding setup_with_manager attempt
    setup-Goes k s t h =
        let (r, u, e, g) =
          bind-Goes (attempt (completed k)) (on_complete C k) s tt t
            (or_exit-Goes (setup_with_manager C manager k config) s tt t h) in
        let (q, p) = on_complete-Goes k r u t g in
        λ i. ((caught-ok (completed k s).0 r (ap (λ z. z.0) e) ∙ q) i, (ap (λ z. z.1) e ∙ p) i)

    -- The calls that set the manager up and run it, in their order.
    abbrev pub served : List (Exec C.State C.Error (Unit {0}))
    served =
        completed onion_service
        ∷ completed onion_balanced_service
        ∷ completed tor
        ∷ C.add_healthz_check manager "healthz"
        ∷ C.add_readyz_check manager "readyz"
        ∷ C.start manager
        ∷ []

    serve-Row : (s t : C.State) → Goes (serve C manager config) s tt t → Row s served t
    unfolding serve
    serve-Row s t h =
        let (_, s1, o, h1) =
          bind-Goes (or_exit C (setup_with_manager C manager onion_service config)) _ s tt t h in
        let (_, s2, b, h2) =
          bind-Goes (or_exit C (setup_with_manager C manager onion_balanced_service config)) _ s1 tt
            t h1 in
        let (_, s3, d, h3) =
          bind-Goes (or_exit C (setup_with_manager C manager tor config)) _ s2 tt t h2 in
        let (_, s4, z, h4) =
          bind-Goes (or_exit C (C.add_healthz_check manager "healthz")) _ s3 tt t h3 in
        let (_, s5, y, h5) =
          bind-Goes (or_exit C (C.add_readyz_check manager "readyz")) _ s4 tt t h4 in
        next (setup-Goes onion_service s s1 o) (
          next (setup-Goes onion_balanced_service s1 s2 b) (
            next (setup-Goes tor s2 s3 d) (
              next (or_exit-Goes (C.add_healthz_check manager "healthz") s3 tt s4 z) (
                next (or_exit-Goes (C.add_readyz_check manager "readyz") s4 tt s5 y)
                  (next (or_exit-Goes (C.start manager) s5 tt t h5) (done t))))))

-- What the flags have main load: nothing, or the file that they name.
abbrev pub Loads : (C : Ctrl) → Flags → C.State → Options × ProjectConfig → C.State → Type 0
Loads C flags s loaded t =
    ((flags.config_file ≡ "") × (loaded ≡ (no_options, no_config)) × (s ≡ t))
    ⊎ ((flags.config_file ≢ "") × Goes (C.and_from flags.config_file no_options) s loaded t)

load-Loads :
    (C : Ctrl) (flags : Flags) (s : C.State) (loaded : Options × ProjectConfig) (t : C.State)
    → Goes (load C flags) s loaded t
    → Loads C flags s loaded t
unfolding load pure
load-Loads C flags s loaded t = elim (Bool-cases (str_eq flags.config_file "")) [
  | inl e ↦ rw e (λ h. inl (
    (eq_iff flags.config_file "").0 e,
    (let q : ◌≡◌ {A = Result Exit (Options × ProjectConfig)} (ok (no_options, no_config))
            (ok loaded) =
          ap (λ z. z.0) h in
        sym (ok_inj q)),
    ap (λ z. z.1) h,
  ))
  | inr e ↦ rw e (λ h. inr (
    (λ d. let q : str_eq flags.config_file "" ≡ true = (eq_iff flags.config_file "").1 d in cc),
    or_exit-Goes C (C.and_from flags.config_file no_options) s loaded t h,
  ))
]

module _ (C : Ctrl) where
  -- If main returns, it has loaded the configuration file that the flags name (without one, the configuration is the
  -- empty one), read the configuration of the client, and made one manager with the loaded options, except that it
  -- elects no leader if the flag forbids it and watches the namespace of the loaded configuration if that names one.
  -- Then it has, in this order and each with success, set up the controllers of OnionServices, OnionBalancedServices and
  -- Tors for that manager with the loaded configuration, added both checks and run the manager.
  pub main-serves :
      (flags : Flags) (s : C.State)
      → (main C flags s).0 ≡ ok tt
      → (loaded : Options × ProjectConfig) × (rest : C.RestConfig) × (options : Options)
        × (manager : C.Manager) × (s1 : C.State) × (s2 : C.State) × (s3 : C.State) × Loads C flags s
            loaded s1
        × Goes C.get_config s1 rest s2
        × Chosen flags loaded options
        × Goes (C.new_manager rest options) s2 manager s3
        × Row s3 (served C manager loaded.1) (main C flags s).1
  unfolding main
  main-serves flags s h =
      let end : C.State = (main C flags s).1 in
      let (loaded, s1, l, h1) = bind-Goes (load C flags) _ s tt end (λ i. (h i, end)) in
      let (rest, s2, r, h2) = bind-Goes C.get_config _ s1 tt end h1 in
      let options = in_namespace loaded.1 (without_leader_election flags loaded.0) in
      let (manager, s3, m, h3) =
        bind-Goes (or_exit C (C.new_manager rest options)) _ s2 tt end h2 in
      (
        loaded,
        rest,
        options,
        manager,
        s1,
        s2,
        s3,
        load-Loads C flags s loaded s1 l,
        r,
        in_namespace-Chosen flags loaded,
        or_exit-Goes C (C.new_manager rest options) s2 manager s3 m,
        serve-Row C manager loaded.1 s3 end h3,
      )
