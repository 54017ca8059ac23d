-- ===== src/Controllers/Tor/Reconcile/Owner.antt =====
-- The metadata of the Tor, which names the owner of the children, is never changed on the way.
use tor_controller.Apis.TorUtil.{deployment_name}
use tor_controller.Controllers.Ensure.{ensure, named}
use tor_controller.Controllers.Tor.Deployment.{deployment_plan}
use tor_controller.Kube.Client.{deployment}
use tor_controller.Base.{String, arith, ◌≡◌, refl, none, some, Option, List, [], ◌∷◌, str_eq}
use tor_controller.Base.Exec.{Result, ok, err, panic, Exec, pure, attempt}
use tor_controller.Base.GoMap.{GoMap, lookup}
use tor_controller.Kube.Types.{Secret, ObjectMeta}
use tor_controller.Kube.Client.{Kube, secret}
use tor_controller.Apis.Types.{Tor, KeySelector, ProjectConfig}
use tor_controller.Apis.TorUtil.{secret_name, set_tor_defaults}
use tor_controller.Controllers.Ensure.{wrapped}
use tor_controller.Controllers.Ensure.Yields.{
  Yields, Yields-pure, Yields-raise, Yields-crash, Yields-if, Yields-bind,
}
use tor_controller.Controllers.Tor.Secret.{
  with_generated, return_tor, on_reference, add_references, on_new_secret, on_secret, tor_secret,
  generate_random_password, reconcile_control_secret, in_namespace, add_secrets, listed,
}
use tor_controller.Controllers.Tor.Deployment.{
  tor_deployment, reconcile_deployment, one_replica, shared_labels,
}

abbrev pub SameMeta : ObjectMeta → Tor → Type 0
SameMeta m t = t.object_meta ≡ m

module _ (K : Kube) (m : ObjectMeta) where
  with_generated-SameMeta : (s : Secret) (t : Tor) → SameMeta m t → SameMeta m (with_generated s t)
  unfolding with_generated
  with_generated-SameMeta s t h = ground arith

  return_tor-Yields :
      (t : Tor) (e : Option K.Error) → SameMeta m t → Yields (SameMeta m) (return_tor K t e)
  unfolding return_tor
  return_tor-Yields t none h = Yields-pure t h
  return_tor-Yields t (some e) h = Yields-raise e

  on_reference-Yields :
      (ref : KeySelector) (t : Tor) (rest : Tor → Exec K.State K.Error Tor)
      → ((u : Tor) → SameMeta m u → Yields (SameMeta m) (rest u))
      → SameMeta m t
      → (r : Result K.Error Secret) → Yields (SameMeta m) (on_reference K ref t rest r)
  unfolding on_reference
  on_reference-Yields ref t rest k h (ok s) =
      k (add_secrets t (listed (lookup ref.key s.contents))) h
  on_reference-Yields ref t rest k h (err e) =
      return_tor-Yields t (wrapped K "failed to get secret %s" e) h
  on_reference-Yields ref t rest k h panic = Yields-crash

  add_references-Yields :
      (refs : List KeySelector) (generated : Secret) (t : Tor)
      → SameMeta m t
      → Yields (SameMeta m) (add_references K refs generated t)
  unfolding add_references
  add_references-Yields [] generated t h =
      Yields-pure (with_generated generated t) (with_generated-SameMeta generated t h)
  add_references-Yields (ref ∷ refs) generated t h =
      Yields-bind (attempt (K.get secret (in_namespace K t ref.name)))
        (on_reference K ref t (add_references K refs generated))
        (on_reference-Yields ref t (add_references K refs generated)
          (add_references-Yields refs generated) h)

  on_new_secret-Yields :
      (t : Tor)
      → SameMeta m t
      → (r : Result K.Error Secret) → Yields (SameMeta m) (on_new_secret K t r)
  unfolding on_new_secret
  on_new_secret-Yields t h (ok s) = add_references-Yields t.spec.control.secret_ref s t h
  on_new_secret-Yields t h (err e) =
      return_tor-Yields t (wrapped K "failed to create secret %#v" e) h
  on_new_secret-Yields t h panic = Yields-crash

  on_secret-Yields :
      (t : Tor) (new : Secret)
      → SameMeta m t
      → (r : Result K.Error Secret) → Yields (SameMeta m) (on_secret K t new r)
  unfolding on_secret
  on_secret-Yields t new h (ok s) = add_references-Yields t.spec.control.secret_ref s t h
  on_secret-Yields t new h (err e) =
      Yields-if (K.is_not_found e) _ _
        (Yields-bind (attempt (K.create secret new)) (on_new_secret K t) (on_new_secret-Yields t h))
        (return_tor-Yields t (wrapped K "failed to get secret %s" e) h)
  on_secret-Yields t new h panic = Yields-crash

  pub reconcile_control_secret-Yields :
      (t : Tor) → SameMeta m t → Yields (SameMeta m) (reconcile_control_secret K t)
  unfolding reconcile_control_secret
  reconcile_control_secret-Yields t h =
      Yields-if (str_eq (secret_name t) "") _ _ (Yields-pure t h) (
        Yields-bind (attempt (K.get secret (in_namespace K t (secret_name t)))) _ (λ found.
          Yields-bind (generate_random_password K) _
            (λ password. on_secret-Yields t (tor_secret K t password) h found)))

shared_labels-SameMeta :
    (m : ObjectMeta) (t : Tor) (labels : Option (GoMap String))
    → SameMeta m t
    → SameMeta m (shared_labels t labels)
shared_labels-SameMeta m t none h = h
shared_labels-SameMeta m t (some labels) h = h

pub one_replica-SameMeta : (m : ObjectMeta) (t : Tor) → SameMeta m t → SameMeta m (one_replica t)
one_replica-SameMeta m t h = ground arith

tor_deployment-SameMeta :
    (K : Kube) (config : ProjectConfig) (m : ObjectMeta) (t : Tor)
    → SameMeta m t
    → SameMeta m (tor_deployment K config t).1
unfolding tor_deployment
tor_deployment-SameMeta K config m t h =
    shared_labels-SameMeta m (one_replica t) (one_replica t).spec.template.object_meta.labels
      (one_replica-SameMeta m t h)

pub reconcile_deployment-Yields :
    (K : Kube) (config : ProjectConfig) (m : ObjectMeta) (t : Tor)
    → SameMeta m t
    → Yields (SameMeta m) (reconcile_deployment K config t)
unfolding reconcile_deployment
reconcile_deployment-Yields K config m t h =
    Yields-bind
      (named K (deployment_name t) (ensure K t.object_meta deployment (deployment_plan K config t)))
      (λ _. pure (tor_deployment K config t).1)
      (λ _. Yields-pure (tor_deployment K config t).1 (tor_deployment-SameMeta K config m t h))

pub set_tor_defaults-SameMeta : (t : Tor) → SameMeta t.object_meta (set_tor_defaults t)
unfolding set_tor_defaults
set_tor_defaults-SameMeta t = refl
