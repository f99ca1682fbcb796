-- ===== src/Lxd/Acls/Ensured.antt =====
-- crates/lxd-client/src/acls.rs: what `ensure_network_acl` leaves.
use openshell_driver_lxd.Common.{
  String, List, ◌∷◌, map, ◌≡◌, refl, ap, ◌∙◌, Bool, true, false, ◌⊎◌, inl, inr, if◌then◌else◌,
  if-both,
}
use openshell_driver_lxd.Common.Dict.{Dict}
use openshell_driver_lxd.Lxd.{
  Lxd, Request, get_network_acl, update_network_acl, create_network_acl, wait_for, is_missing,
}
use openshell_driver_lxd.Lxd.Types.{LxdError, Result, ok, err, Operation, Acl}
use openshell_driver_lxd.Lxd.Actions.{World}
use openshell_driver_lxd.Lxd.Quiet.{logged}
use openshell_driver_lxd.Lxd.Client.{Chain, done, fail, outcome, follow, ◌>>=◌, ◌>>◌, call}
use openshell_driver_lxd.Lxd.Acls.{
  Rule, to_json, acl_matches, is_conflict, replace_rules, created, create_acl, current_acl,
  ensure_network_acl,
}
use openshell_driver_lxd.Driver.Scope.{writes}

module _ (L : Lxd) (name : String) (egress : List (Dict String)) where
  ended :
      {A : Type 0} (r : Result LxdError A) (w : World L)
      → logged writes (follow r (λ _. done tt) w).1 ≡ logged writes w
  unfolding done
  ended (ok a) w = refl
  ended (err e) w = refl

  waited :
      (r : Result LxdError Operation) (w : World L)
      → logged writes (follow r (λ op. call (wait_for op.id) >> done tt) w).1 ≡ logged writes w
  unfolding call ◌>>=◌
  waited (ok op) w = ended (L.answer (wait_for op.id) w.state).0 _
  waited (err e) w = refl

  abbrev update : Request
  update = update_network_acl name egress

  abbrev creation : Request
  creation = create_network_acl name egress

  replace_rules-writes :
      (w : World L) → logged writes (replace_rules L name egress w).1 ≡ update ∷ logged writes w
  unfolding replace_rules call ◌>>=◌
  replace_rules-writes w = waited (L.answer update w.state).0 _

  -- Given the answer to a creation, the writes made on top of those before: an update; a creation that
  -- was answered with an operation, or after which the result is an error; or an update after a
  -- creation.
  abbrev pub Wrote :
      Result LxdError Operation → List Request → Result LxdError (Unit {0}) × World L → Type 0
  Wrote answered before (r, w) =
      (logged writes w ≡ update ∷ before)
      ⊎ (((logged writes w ≡ creation ∷ before)
            × (((op : Operation) × (answered ≡ ok op)) ⊎ ((e : LxdError) × (r ≡ err e))))
          ⊎ (logged writes w ≡ update ∷ creation ∷ before))

  created-Wrote :
      (r : Result LxdError Operation) (w : World L) (before : List Request)
      → logged writes w ≡ creation ∷ before
      → Wrote r before (created L name egress r w)
  unfolding fail call ◌>>=◌
  created-Wrote (ok op) w before h =
      inr (inl (ended (L.answer (wait_for op.id) w.state).0 _ ∙ h, inl (op, refl)))
  created-Wrote (err e) w before h =
      if-both (λ (m : Chain L (Unit {0})). Wrote (err e) before (m w)) (is_conflict e)
        (replace_rules L name egress) (fail e)
        (inr (inr (replace_rules-writes w ∙ ap (λ ws. update ∷ ws) h)))
        (inr (inl (h, inr (e, refl))))

  -- The outcome, given LXD's answers to the reading and to a creation: nothing was written, or the
  -- rules were.
  abbrev pub Ensures :
      List Request
      → Result LxdError Acl
      → Result LxdError Operation
      → Result LxdError (Unit {0}) × World L
      → Type 0
  Ensures before answer answered (r, w) =
      ((logged writes w ≡ before)
        × ((r ≡ ok tt) × ((acl : Acl) × (answer ≡ ok acl) × (acl_matches acl egress ≡ true))
            ⊎ ((e : LxdError) × (r ≡ err e))))
      ⊎ Wrote answered before (r, w)

  abbrev pub creation_answer : World L → Result LxdError Operation
  creation_answer w = (L.answer creation w.state).0

  create_acl-Wrote :
      (w : World L) → Wrote (creation_answer w) (logged writes w) (create_acl L name egress w)
  unfolding create_acl outcome call ◌>>=◌
  create_acl-Wrote w = created-Wrote (L.answer creation w.state).0 _ (logged writes w) refl

  kept_or_replaced :
      (acl : Acl) (b : Bool) (w : World L)
      → acl_matches acl egress ≡ b
      → Ensures
          (logged writes w)
          (ok acl)
          (creation_answer w)
          ((if b then done tt else replace_rules L name egress) w)
  unfolding done
  kept_or_replaced acl true w h = inl (refl, inl (refl, (acl, refl, h)))
  kept_or_replaced acl false w h = inr (inl (replace_rules-writes w))

  current_acl-Ensures :
      (answer : Result LxdError Acl) (w : World L)
      → Ensures (logged writes w) answer (creation_answer w) (current_acl L name egress answer w)
  unfolding fail
  current_acl-Ensures (ok acl) w = kept_or_replaced acl (acl_matches acl egress) w refl
  current_acl-Ensures (err e) w =
      if-both
        (λ (m : Chain L (Unit {0})). Ensures (logged writes w) (err e) (creation_answer w) (m w))
        (is_missing e) (create_acl L name egress) (fail e) (inr (create_acl-Wrote w))
        (inl (refl, inr (e, refl)))

-- Whatever LXD answers: bringing an ACL up to date asks LXD for nothing only if LXD's ACL has these
-- rules already, or with an error; otherwise the last change that it asks for has exactly these rules,
-- and is the update or the creation of that ACL, a creation only if LXD has accepted it or with an
-- error.
pub ensure_network_acl-Ensures :
    (L : Lxd) (name : String) (rules : List Rule) (w : World L)
    → let (answer, state) = L.answer (get_network_acl name) w.state in
      let egress = map to_json rules in
      Ensures L name egress
        (logged writes w)
        answer
        (L.answer (create_network_acl name egress) state).0
        (ensure_network_acl L name rules w)
unfolding ensure_network_acl outcome call ◌>>=◌
ensure_network_acl-Ensures L name rules w =
    current_acl-Ensures L name (map to_json rules) (L.answer (get_network_acl name) w.state).0 _
