-- ===== src/Grpc/Addressing.antt =====
-- crates/openshell-driver-lxd/src/grpc.rs, `resolve_name`: a sandbox addressed by its id.
use openshell_driver_lxd.Common.{
  ◌≡◌, refl, ap, sym, ◌∙◌, String, List, ◌∷◌, some, true, false, find, string_eq,
}
use openshell_driver_lxd.Common.Text.{is_empty}
use openshell_driver_lxd.Lxd.{Lxd, list_instances}
use openshell_driver_lxd.Lxd.Types.{LxdError, Result, ok, err, Instance}
use openshell_driver_lxd.Lxd.Actions.{World, send, pure}
use openshell_driver_lxd.Lxd.Actions
use openshell_driver_lxd.Errors.{from_lxd}
use openshell_driver_lxd.Config.{Config}
use openshell_driver_lxd.Driver.{has_id}
use openshell_driver_lxd.Driver.Reads.{name_of, find_name_by_sandbox_id}
use openshell_driver_lxd.Grpc.{
  Handler, proceed, ◌>>=◌, Target, reply, through, as_status, found_name, resolve_name,
  start_sandbox_rpc, stop_sandbox_rpc, get_sandbox_rpc, delete_named, delete_sandbox_rpc,
}

module _ (debug : String → String) (c : Config) (L : Lxd) where
  -- The world after the instances were listed.
  abbrev pub listed : World L → World L
  listed w = record w {
    state = (L.answer list_instances w.state).1;
    calls = list_instances ∷ w.calls;
  }

  listing :
      (sandbox_id : String) (w : World L) (answer : Result LxdError (List Instance))
      → (L.answer list_instances w.state).0 ≡ answer
      → through debug (find_name_by_sandbox_id debug c L sandbox_id) w
        ≡ proceed
            (as_status debug (from_lxd answer))
            (λ instances. reply debug (name_of (find (has_id sandbox_id) instances)))
            (listed w)
  unfolding through find_name_by_sandbox_id send Actions.◌>>=◌ pure
  listing sandbox_id w (ok instances) e = rw e refl
  listing sandbox_id w (err x) e = rw e refl

  module _ (t : Target) (w : World L) (instances : List Instance)
      (unnamed : is_empty t.sandbox_name ≡ true) (identified : is_empty t.sandbox_id ≡ false)
      (answered : (L.answer list_instances w.state).0 ≡ ok instances) where
    pub resolve_name-by_id :
        resolve_name debug c L t w
        ≡ found_name debug c L t.sandbox_id
            (name_of (find (has_id t.sandbox_id) instances))
            (listed w)
    unfolding resolve_name ◌>>=◌
    resolve_name-by_id = rw unnamed (
        rw identified (
          ap (λ x. proceed x.0 (found_name debug c L t.sandbox_id) x.1)
            (listing t.sandbox_id w (ok instances) answered)))

-- The requests that name a sandbox.
abbrev pub named : String → Target
named name = record { sandbox_name = name; sandbox_id = "" }

module _ (debug : String → String) (c : Config) (L : Lxd) where
  pub resolve_name-named :
      (name : String) (w : World L)
      → is_empty name ≡ false
      → resolve_name debug c L (named name) w ≡ (ok name, w)
  unfolding resolve_name
  resolve_name-named name w h = rw h refl

  -- Two targets that resolve alike are served alike.
  serves_alike :
      {A : Type 0} (f : String → Handler L A) (t u : Target) (v w : World L)
      → resolve_name debug c L t w ≡ resolve_name debug c L u v
      → (resolve_name debug c L t >>= f) w ≡ (resolve_name debug c L u >>= f) v
  unfolding ◌>>=◌
  serves_alike f t u v w h = ap (λ x. proceed x.0 f x.1) h

-- For a request with an id and no name, where LXD's list has an instance with that id: each RPC does
-- what it does for a request with the name of the first such instance, after the one call that lists.
pub rpc-by_id :
    (debug : String → String) (c : Config) (L : Lxd) (t : Target) (w : World L)
    (instances : List Instance) (i : Instance)
    → is_empty t.sandbox_name ≡ true
    → is_empty t.sandbox_id ≡ false
    → (L.answer list_instances w.state).0 ≡ ok instances
    → find (has_id t.sandbox_id) instances ≡ some i
    → is_empty i.name ≡ false
    → (start_sandbox_rpc debug c L t w
        ≡ start_sandbox_rpc debug c L (named i.name) (listed debug c L w))
      × (stop_sandbox_rpc debug c L t w
          ≡ stop_sandbox_rpc debug c L (named i.name) (listed debug c L w))
      × (get_sandbox_rpc debug c L t w
          ≡ get_sandbox_rpc debug c L (named i.name) (listed debug c L w))
      × (delete_sandbox_rpc debug c L t w
          ≡ delete_sandbox_rpc debug c L (named i.name) (listed debug c L w))
unfolding start_sandbox_rpc stop_sandbox_rpc get_sandbox_rpc delete_sandbox_rpc
rpc-by_id debug c L t w instances i unnamed identified answered found filled =
    let alike : resolve_name debug c L t w
        ≡ resolve_name debug c L (named i.name) (listed debug c L w) =
      resolve_name-by_id debug c L t w instances unnamed identified answered
      ∙ (ap (λ o. found_name debug c L t.sandbox_id (name_of o) (listed debug c L w)) found
          ∙ sym (resolve_name-named debug c L i.name (listed debug c L w) filled)) in
    (
      serves_alike debug c L _ t (named i.name) (listed debug c L w) w alike,
      serves_alike debug c L _ t (named i.name) (listed debug c L w) w alike,
      serves_alike debug c L _ t (named i.name) (listed debug c L w) w alike,
      ap (λ x. delete_named debug c L x.0 x.1) alike,
    )
