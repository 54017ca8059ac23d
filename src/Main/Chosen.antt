-- ===== src/Main/Chosen.antt =====
-- The options of the manager that main.go makes.
use tor_controller.Base.{
  ◌≡◌, ◌≢◌, refl, ◌∙◌, Bool, true, false, not, ◌&&◌, ◌⊎◌, inl, inr, str_eq, eq_iff, Bool-cases,
  if◌then◌else◌,
}
use tor_controller.Apis.Types.{ProjectConfig}
use tor_controller.Main.{Options, Flags, without_leader_election, in_namespace}

-- The options of the manager, of what was loaded: no leader if the flag forbids it, and the
-- namespace of the configuration if it names one.
abbrev pub Chosen : Flags → Options × ProjectConfig → Options → Type 0
Chosen flags loaded options =
    (options.rest ≡ loaded.0.rest)
    × (options.leader_election ≡ (not flags.disable_leader_election && loaded.0.leader_election))
    × (((loaded.1.namespace ≡ "") × (options.namespace ≡ loaded.0.namespace))
        ⊎ ((loaded.1.namespace ≢ "") × (options.namespace ≡ loaded.1.namespace)))

without_leader_election-keeps :
    (flags : Flags) (options : Options)
    → (let o = without_leader_election flags options in
        (o.rest ≡ options.rest)
        × (o.leader_election ≡ (not flags.disable_leader_election && options.leader_election))
        × (o.namespace ≡ options.namespace))
unfolding without_leader_election
without_leader_election-keeps flags options =
    off flags.disable_leader_election options.leader_election refl
  where
    off :
        (d l : Bool)
        → options.leader_election ≡ l
        → (let o = if d && l then record options { leader_election = false } else options in
            (o.rest ≡ options.rest)
            × (o.leader_election ≡ (not d && l))
            × (o.namespace ≡ options.namespace))
    off true true e = (refl, refl, refl)
    off true false e = (refl, e, refl)
    off false true e = (refl, e, refl)
    off false false e = (refl, e, refl)

in_namespace-keeps :
    (config : ProjectConfig) (options : Options)
    → (let o = in_namespace config options in
        (o.rest ≡ options.rest)
        × (o.leader_election ≡ options.leader_election)
        × (((config.namespace ≡ "") × (o.namespace ≡ options.namespace))
            ⊎ ((config.namespace ≢ "") × (o.namespace ≡ config.namespace))))
unfolding in_namespace
in_namespace-keeps config options = elim (Bool-cases (str_eq config.namespace "")) [
  | inl e ↦ rw e (refl, refl, inl ((eq_iff config.namespace "").0 e, refl))
  | inr e ↦ rw e (
    refl,
    refl,
    inr (
      (λ d. let q : str_eq config.namespace "" ≡ true = (eq_iff config.namespace "").1 d in cc),
      refl,
    ),
  )
]

pub in_namespace-Chosen :
    (flags : Flags) (loaded : Options × ProjectConfig)
    → Chosen flags loaded (in_namespace loaded.1 (without_leader_election flags loaded.0))
in_namespace-Chosen flags loaded =
    let (r, l, n) = in_namespace-keeps loaded.1 (without_leader_election flags loaded.0) in
    let (r', l', n') = without_leader_election-keeps flags loaded.0 in
    (r ∙ r', l ∙ l', elim n [ inl (e, k) ↦ inl (e, k ∙ n') | inr x ↦ inr x ])
