-- ===== src/Controllers/OnionBalancedService/Reconcile/Again.antt =====
-- When a run of the OnionBalancedService reconciler asks to run again.
use mathlib.Core.List.{Memᴰ}
use tor_controller.Base.{
  String, Bool, true, false, not, ◌≡◌, refl, sym, ap, ◌∙◌, ◌↔◌, some, List, [], length,
  if◌then◌else◌, ◌==◌, all,
}
use tor_controller.Base.Exec.{Result, ok, err, panic, pure, attempt, caught, continue, ◌>>=◌}
use tor_controller.Kube.Types.{Service}
use tor_controller.Kube.Client.{
  Kube, onion_balanced_service, service, key_of, ErrorLaws, ServerLaws,
}
use tor_controller.Apis.Types.{OnionService, OnionBalancedService, ProjectConfig}
use tor_controller.Apis.OnionBalancedServiceUtil.{
  service_name, is_synced, get_backends, has_hostname,
}
use tor_controller.Apis.OnionBalancedServiceUtil.Synced.{Entry, Known, is_synced_iff}
use tor_controller.Controllers.Ensure.{wrapped}
use tor_controller.Controllers.Ensure.Made.{place_in}
use tor_controller.Controllers.OnionService.Reconcile.{default_cluster_ip}
use tor_controller.Controllers.OnionBalancedService.Reconcile.{
  finished, add_backends, listed_items, with_status, on_updated, write_status, with_cluster_ip,
  on_service, update_status,
}
use tor_controller.Controllers.OnionBalancedService.Reconcile.Missing.{finished-reports}

is_synced-same :
    (u v : OnionBalancedService) → u.spec ≡ v.spec → u.status ≡ v.status → is_synced u ≡ is_synced v
unfolding is_synced
is_synced-same u v p q = λ i.
    if length (q i).backends == get_backends (p i) then all has_hostname (q i).backends else false

-- What the status has as backends if the OnionServices of a namespace are listed in a state.
abbrev pub backends_at : (K : Kube) → String → K.State → List Entry
backends_at K asked s = add_backends (listed_items (K.list_onion_services asked s).0) []

-- The API server answers an update of the status with the stored object under the status that it was sent: the spec
-- that it was sent is ignored.
abbrev pub StatusOnly : {K : Kube} → ServerLaws K → Type 0
StatusOnly {K} L =
    (o u v : OnionBalancedService) (s : K.State)
    → L.contents s onion_balanced_service (key_of onion_balanced_service o) ≡ some v
    → (K.update_status onion_balanced_service o s).0 ≡ ok u
    → (u.spec ≡ v.spec) × (u.status ≡ o.status)

module _ {K : Kube} (E : ErrorLaws K) (L : ServerLaws K) (answers : StatusOnly L)
    (config : ProjectConfig) (asked : String) (o v : OnionBalancedService) (again : Bool) where
  abbrev at_rest : OnionBalancedService → OnionBalancedService
  at_rest sent = record sent { spec = v.spec }

  abbrev Held : K.State → Type 0
  Held s = L.contents s onion_balanced_service (key_of onion_balanced_service o) ≡ some v

  updated_again :
      (sent : OnionBalancedService) (r : Result K.Error OnionBalancedService) (s : K.State)
      → ((u : OnionBalancedService) → r ≡ ok u → (u.spec ≡ v.spec) × (u.status ≡ sent.status))
      → (continue (caught r) (on_updated K config sent) s).0 ≡ ok again
      → not (is_synced (at_rest sent)) ≡ again
  unfolding on_updated pure
  updated_again sent (ok u) s same h =
      let (p, q) = same u refl in ap not (sym (is_synced-same u (at_rest sent) p q)) ∙ cc
  updated_again sent (err e) s same h =
      let (x, g) =
        finished-reports K config (wrapped K "unable to update OnionBalancedService status" e) s
          (E.wrap-some e "unable to update OnionBalancedService status") in
      absurd (cc)
  updated_again sent panic s same h = absurd (cc)

  written_again :
      (ip : String) (items : Result K.Error (List OnionService)) (s : K.State)
      → Held s
      → (continue (caught items) (write_status K config o ip) s).0 ≡ ok again
      → not (is_synced (at_rest (with_status K config o ip (listed_items items)))) ≡ again
  unfolding write_status attempt ◌>>=◌
  written_again ip (ok os) s held h =
      let sent = with_status K config o ip os in
      updated_again sent (K.update_status onion_balanced_service sent s).0
        (K.update_status onion_balanced_service sent s).1 (λ u e. answers sent u v s held e) h
  written_again ip (err e) s held h =
      let sent = with_status K config o ip [] in
      updated_again sent (K.update_status onion_balanced_service sent s).0
        (K.update_status onion_balanced_service sent s).1 (λ u q. answers sent u v s held q) h
  written_again ip panic s held h = absurd (cc)

  Settled : K.State → Type 0
  Settled s = again ≡ false ↔ (
      (length (backends_at K asked s) ≡ v.spec.backends)
      × ((x : Entry) → Memᴰ x (backends_at K asked s) → Known x))

  not_again : (b : Bool) → not b ≡ again → again ≡ false ↔ b ≡ true
  not_again true h = (λ e. refl, λ e. sym h)
  not_again false h = (λ e. absurd (let q : true ≡ false = h ∙ e in cc), λ e. absurd (cc))

  listed_again :
      (ip : String) (s : K.State)
      → Held s
      → (with_cluster_ip K config asked o ip s).0 ≡ ok again
      → Settled s
  unfolding with_cluster_ip attempt ◌>>=◌ Settled
  listed_again ip s held h =
      let items = (K.list_onion_services asked s).0 in
      let t = (K.list_onion_services asked s).1 in
      let sent = with_status K config o ip (listed_items items) in
      let held' : Held t =
        ap (λ c. c onion_balanced_service (key_of onion_balanced_service o)) (L.list-keeps asked s)
        ∙ held in
      let (to, from) = not_again (is_synced (at_rest sent)) (written_again ip items t held' h) in
      let (iff, back) = is_synced_iff (at_rest sent) in (λ e. iff (to e), λ e. from (back e))

  no_service_again :
      (missing : Bool) (e : K.Error) (s : K.State)
      → Held s
      → ((if missing
            then with_cluster_ip K config asked o default_cluster_ip
            else finished K config (wrapped K "unable to get service" e))
          s).0
        ≡ ok again
      → Settled s
  no_service_again true e s held h = listed_again default_cluster_ip s held h
  no_service_again false e s held h =
      let (x, g) =
        finished-reports K config (wrapped K "unable to get service" e) s
          (E.wrap-some e "unable to get service") in
      absurd (cc)

  served_again :
      (r : Result K.Error Service) (s : K.State)
      → Held s
      → (continue (caught r) (on_service K config asked o) s).0 ≡ ok again
      → Settled s
  unfolding on_service
  served_again (ok x) s held h = listed_again x.spec.cluster_ip s held h
  served_again (err e) s held h = no_service_again (K.is_not_found e) e s held h
  served_again panic s held h = absurd (cc)

  -- Where the API server answers a status update with the stored spec and the status that it was sent, the end of
  -- Reconcile, if it returns no error, asks to run again unless the OnionServices that it lists have as many names as
  -- the spec of the stored OnionBalancedService asks for backends and each entry of the status has a hostname.
  pub update_status-again :
      (s : K.State)
      → L.contents s onion_balanced_service (key_of onion_balanced_service o) ≡ some v
      → (update_status K config asked o s).0 ≡ ok again
      → again ≡ false ↔ (
          (length
              (backends_at K asked (K.get service (place_in o.object_meta (service_name o)) s).1)
            ≡ v.spec.backends)
          × ((x : Entry)
              → Memᴰ x (
                  backends_at K asked (K.get service (place_in o.object_meta (service_name o)) s).1)
              → Known x))
  unfolding update_status attempt ◌>>=◌ Settled
  update_status-again s held h =
      let place = place_in o.object_meta (service_name o) in
      served_again (K.get service place s).0 (K.get service place s).1
        (ap (λ c. c onion_balanced_service (key_of onion_balanced_service o))
            (L.get-keeps service place s)
          ∙ held)
        h
