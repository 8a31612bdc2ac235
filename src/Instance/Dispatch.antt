-- ===== src/Instance/Dispatch.antt =====
-- What the handlers of pkg/instance/instance.go do with the data engine and the type of a request.
use longhorn_engine_launcher.Prelude.{
  ◌≡◌, ◌⊎◌, inl, inr, refl, sym, Bool, true, false, Option, none, some, arith,
}
use longhorn_engine_launcher.Prelude.Text.{Text, text_eq, text_eq_sound}
use longhorn_engine_launcher.Rpc.{
  unimplemented, invalid_argument, internal, Result, value, failure, panics, answer_with, fail_as,
}
use longhorn_engine_launcher.Client.{ProcessService}
use longhorn_engine_launcher.Instance.{
  DataEngine, v1, v2, other_engine, Kind, engine, replica, other_kind, kind_of, engine_type,
  replica_type, InstanceSpec, InstanceResponse, SpdkInstanceSpec, ProcessInstanceSpec,
  process_response_to_instance_response, engine_response_to_instance_response,
  replica_response_to_instance_response,
}
use longhorn_engine_launcher.Instance.Operations.{
  SpdkClient, dispatch, by_kind, connected, refuse, with_spdk_spec, v1_create, v2_create,
  v2_suspend, v2_resume, v2_switch_over_target, v2_delete_target, create_with,
}
use longhorn_engine_launcher.Instance.Server.{
  instance_create, instance_suspend, instance_resume, instance_switch_over_target,
  instance_delete_target,
}

kind-engine : (t : Text) → kind_of t ≡ engine → t ≡ engine_type
kind-engine t h = text_eq_sound t engine_type (ground arith)

kind-replica : (t : Text) → kind_of t ≡ replica → t ≡ replica_type
kind-replica t h = text_eq_sound t replica_type (ground arith)

-- Every value that a call can answer has the property.
abbrev pub Answers : {W A : Type 0} → (A → Type 0) → W × Result A → Type 0
Answers Q (w, value a) = Q a
Answers Q (w, failure e) = Unit {0}
Answers Q (w, panics) = Unit {0}

answer_with-Answers :
    {W A C : Type 0} (Q : C → Type 0) (f : A → C) (x : W × Result A)
    → ((a : A) → Q (f a))
    → Answers Q (answer_with f x)
answer_with-Answers Q f (w, value a) h = h a
answer_with-Answers Q f (w, failure e) h = tt
answer_with-Answers Q f (w, panics) h = tt

-- The response is for an instance of the type and the data engine that were asked for.
abbrev pub Echoes : InstanceSpec → InstanceResponse → Type 0
Echoes spec r = (r.type ≡ spec.type) × (r.data_engine ≡ spec.data_engine)

module _ {W A : Type 0} (Q : A → Type 0) where
  connected-Answers :
      (b : Bool) (f : W → W × Result A) (w : W)
      → ((x : W) → Answers Q (f x))
      → Answers Q (connected b f w)
  connected-Answers true f w h = h w
  connected-Answers false f w h = tt

  with_spdk_spec-Answers :
      (o : Option SpdkInstanceSpec) (f : SpdkInstanceSpec → W → W × Result A) (w : W)
      → ((s : SpdkInstanceSpec) → (x : W) → Answers Q (f s x))
      → Answers Q (with_spdk_spec o f w)
  with_spdk_spec-Answers none f w h = tt
  with_spdk_spec-Answers (some s) f w h = h s w

  by_kind-Answers :
      (k : Kind) (f g : W → W × Result A) (w : W)
      → (k ≡ engine → Answers Q (f w))
      → (k ≡ replica → Answers Q (g w))
      → Answers Q (by_kind k f g w)
  by_kind-Answers engine f g w hf hg = hf refl
  by_kind-Answers replica f g w hf hg = hg refl
  by_kind-Answers other_kind f g w hf hg = tt

  dispatch-Answers :
      (d : DataEngine) (f g : W → W × Result A) (w : W)
      → (d ≡ v1 → Answers Q (f w))
      → (d ≡ v2 → Answers Q (g w))
      → Answers Q (dispatch d f g w)
  dispatch-Answers v1 f g w hf hg = hf refl
  dispatch-Answers v2 f g w hf hg = hg refl
  dispatch-Answers (other_engine n) f g w hf hg = tt

-- A request to the V2 data engine, for an engine.
abbrev pub IsV2Engine : DataEngine → Text → Type 0
IsV2Engine d t = (d ≡ v2) × (t ≡ engine_type)

module _ {W : Type 0} (P : ProcessService W) (S : SpdkClient W) where
  create_with-Echoes :
      (spec : InstanceSpec) (o : Option ProcessInstanceSpec) (w : W)
      → spec.data_engine ≡ v1
      → Answers (Echoes spec) (create_with P spec o w)
  unfolding create_with process_response_to_instance_response
  create_with-Echoes spec none w h = tt
  create_with-Echoes spec (some s) w h =
      connected-Answers (Echoes spec) (ProcessService.connects P w) _ w
        (λ x. answer_with-Answers (Echoes spec) _ _ (λ p. (refl, sym h)))

  v2_create-Echoes :
      (spec : InstanceSpec) (w : W)
      → spec.data_engine ≡ v2
      → Answers (Echoes spec) (v2_create S spec w)
  unfolding v2_create engine_response_to_instance_response replica_response_to_instance_response
  v2_create-Echoes spec w h = connected-Answers (Echoes spec) (SpdkClient.connects S w) _ w (λ x.
      by_kind-Answers (Echoes spec) (kind_of spec.type) _ _ x
        (λ k. with_spdk_spec-Answers (Echoes spec) spec.spdk_instance_spec _ x (λ s y.
          answer_with-Answers (Echoes spec) _ _ (λ e. (sym (kind-engine spec.type k), sym h))))
        (λ k. with_spdk_spec-Answers (Echoes spec) spec.spdk_instance_spec _ x (λ s y.
          answer_with-Answers (Echoes spec) _ _ (λ r. (sym (kind-replica spec.type k), sym h)))))

  -- Whatever the services answer, an instance that is created has the type and the data engine of
  -- the request.
  pub instance_create-Echoes :
      (spec : InstanceSpec) (w : W) → Answers (Echoes spec) (instance_create P S spec w)
  unfolding instance_create v1_create
  instance_create-Echoes spec w =
      dispatch-Answers (Echoes spec) spec.data_engine (v1_create P spec) (v2_create S spec) w
        (create_with-Echoes spec spec.process_instance_spec w) (v2_create-Echoes spec w)

  for_engine-Answers :
      (d : DataEngine) (t : Text) (f : W → W × Result (Unit {0})) (w : W)
      → Answers
          (λ u. IsV2Engine d t)
          (dispatch d
            (refuse unimplemented)
            (λ x.
              connected
                (SpdkClient.connects S x)
                (by_kind (kind_of t) (λ y. fail_as internal (f y)) (refuse invalid_argument))
                x)
            w)
  for_engine-Answers d t f w =
      dispatch-Answers (λ u. IsV2Engine d t) d _ _ w (λ e. tt)
        (λ e.
          connected-Answers (λ u. IsV2Engine d t) (SpdkClient.connects S w) _ w
            (λ x.
              by_kind-Answers (λ u. IsV2Engine d t) (kind_of t) _ _ x
                (λ k. fails_as (f x) (e, kind-engine t k)) (λ k. tt)))
    where
      fails_as :
          (x : W × Result (Unit {0}))
          → IsV2Engine d t
          → Answers (λ (u : Unit {0}). IsV2Engine d t) (fail_as internal x)
      fails_as (v, value u) h = h
      fails_as (v, failure c) h = tt
      fails_as (v, panics) h = tt

  -- Suspending, resuming, switching over and deleting a target succeed only for the type engine of
  -- the V2 data engine, whatever the services answer.
  pub engine_controls-IsV2Engine :
      (name type target : Text) (d : DataEngine) (w : W)
      → Answers (λ u. IsV2Engine d type) (instance_suspend P S name type d w)
        × Answers (λ u. IsV2Engine d type) (instance_resume P S name type d w)
        × Answers (λ u. IsV2Engine d type) (instance_switch_over_target P S name type d target w)
        × Answers (λ u. IsV2Engine d type) (instance_delete_target P S name type d w)
  unfolding instance_suspend instance_resume instance_switch_over_target instance_delete_target
      v2_suspend v2_resume v2_switch_over_target v2_delete_target
  engine_controls-IsV2Engine name type target d w = (
    for_engine-Answers d type (SpdkClient.engine_suspend S name) w,
    for_engine-Answers d type (SpdkClient.engine_resume S name) w,
    for_engine-Answers d type (SpdkClient.engine_switch_over_target S name target) w,
    for_engine-Answers d type (SpdkClient.engine_delete_target S name) w,
  )

  -- InstanceCreate on the V2 data engine, for an engine or a replica without its SPDK
  -- specification, panics if the client connects.
  pub instance_create-panics :
      (spec : InstanceSpec) (w : W)
      → spec.data_engine ≡ v2
      → spec.spdk_instance_spec ≡ none
      → (spec.type ≡ engine_type) ⊎ (spec.type ≡ replica_type)
      → SpdkClient.connects S w ≡ true
      → instance_create P S spec w ≡ (w, panics)
  unfolding instance_create v2_create text_eq
  instance_create-panics spec w hd hs (inl ht) hc = rw (hd, hs, ht, hc) refl
  instance_create-panics spec w hd hs (inr ht) hc = rw (hd, hs, ht, hc) refl
