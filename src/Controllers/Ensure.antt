-- ===== src/Controllers/Ensure.antt =====
-- The shape that the reconcile functions of controllers/tor share: read the object, create it if it
-- is missing, leave it alone if another owner controls it, and update it if it differs.
pub mod Made
pub mod Keeps
pub mod Yields
pub mod Guarded
pub mod Foreign
pub mod Present
pub mod Live
use tor_controller.Base.{String, Bool, true, false, Option, none, some, if◌then◌else◌, str_eq}
use tor_controller.Base.Exec.{
  Result, ok, err, panic, Exec, pure, crash, attempt, return_error, ◌>>=◌,
}
use tor_controller.Kube.Types.{NamespacedName, ObjectMeta}
use tor_controller.Kube.Client.{Kube, Kind, Object, meta, key_of}

-- What one reconcile function asks for, and the errors that it returns.
pub record Plan (K : Kube) (k : Kind) : Type 0 where
  pub desired : Object k
  pub may_create : Bool
  pub equal : Object k → Object k → Bool
  pub fail_get : K.Error → Option K.Error
  pub fail_create : K.Error → Option K.Error
  pub fail_update : K.Error → Option K.Error

module _ (K : Kube) where
  -- errors.Wrap(err, message) at an error
  abbrev pub wrapped : String → K.Error → Option K.Error
  wrapped message e = K.wrap (some e) message

  -- errors.Errorf(message)
  abbrev pub replaced : String → K.Error → Option K.Error
  replaced message e = some (K.new_error message)

  abbrev pub Done : Type 0
  Done = Exec K.State K.Error (Unit {0})

  -- if name == "" { runtime.HandleError(…); return nil }: the error is only logged.
  abbrev pub named : String → Done → Done
  named name m = if str_eq name "" then pure tt else m

  -- err := call; if err != nil { return fail(err) }
  unfoldable pub checked : (K.Error → Option K.Error) → {A : Type 0} → Result K.Error A → Done
  checked fail (ok a) = pure tt
  checked fail (err e) = return_error (fail e)
  checked fail panic = crash

module _ (K : Kube) (owner : ObjectMeta) (k : Kind) (p : Plan K k) where
  unfoldable pub on_created : (Object k → Object k → Done K) → Result K.Error (Object k) → Done K
  on_created after (ok o) = after o o
  on_created after (err e) = return_error (p.fail_create e)
  on_created after panic = crash

  unfoldable pub on_found : (Object k → Object k → Done K) → Result K.Error (Object k) → Done K
  unfolding on_created
  on_found after (ok o) = after o p.desired
  on_found after (err e) =
      if K.is_not_found e
      then (if p.may_create then attempt (K.create k p.desired) >>= on_created after else pure tt)
      else return_error (p.fail_get e)
  on_found after panic = crash

  -- From `Get` to the object that is there, new or old, and the object that is wanted.
  unfoldable pub with_object : (Object k → Object k → Done K) → Done K
  unfolding on_found
  with_object after = attempt (K.get k (key_of k p.desired)) >>= on_found after

  -- if !IsControlledBy { return nil }
  unfoldable pub if_controlled : (Object k → Object k → Done K) → Object k → Object k → Done K
  if_controlled after existing wanted =
      if K.is_controlled_by (meta k existing) owner then after existing wanted else pure tt

  -- if !equal { Update }
  unfoldable pub update_if_changed : Object k → Object k → Done K
  unfolding checked
  update_if_changed existing wanted =
      if p.equal existing wanted
      then pure tt
      else attempt (K.update k wanted) >>= checked K p.fail_update

  -- Functions that create and never update.
  unfoldable pub ensure_created : Done K
  unfolding with_object if_controlled
  ensure_created = with_object (if_controlled (λ _ _. pure tt))

  -- Functions that create and update.
  unfoldable pub ensure : Done K
  unfolding with_object if_controlled update_if_changed
  ensure = with_object (if_controlled update_if_changed)
