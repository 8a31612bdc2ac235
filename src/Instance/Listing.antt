-- ===== src/Instance/Listing.antt =====
-- InstanceList of pkg/instance/instance.go: which of the listed objects answers for a name.
use longhorn_engine_launcher.Prelude.{
  ◌≡◌, refl, ap, ◌∙◌, Bool, true, false, Option, none, some, List, [], ◌∷◌, if◌then◌else◌,
}
use longhorn_engine_launcher.Prelude.Text.{Text, text_eq}
use longhorn_engine_launcher.Prelude.Dict.{lookup, insert, lookup-insert}
use longhorn_engine_launcher.Process.{ProcessResponse}
use longhorn_engine_launcher.Rpc.{value}
use longhorn_engine_launcher.Client.{ProcessService, client_process_list}
use longhorn_engine_launcher.Instance.{
  InstanceResponse, SpdkEngine, SpdkReplica, engine_response_to_instance_response,
  replica_response_to_instance_response,
}
use longhorn_engine_launcher.Instance.Operations.{
  SpdkClient, Instances, insert_all, listed_process, values, v1_list, v2_list,
}
use longhorn_engine_launcher.Instance.Server.{instance_list}

abbrev pub or_else : {A : Type 0} → Option A → Option A → Option A
or_else none y = y
or_else (some x) y = some x

-- The last instance of a name in a list.
abbrev pub last_named :
    {A : Type 0} → (A → InstanceResponse) → Text → List A → Option InstanceResponse
last_named f j [] = none
last_named f j (x ∷ xs) =
    or_else (last_named f j xs) (if text_eq (f x).name j then some (f x) else none)

lookup-insert_all :
    {A : Type 0} (f : A → InstanceResponse) (j : Text) (xs : List A) (instances : Instances)
    → lookup j (insert_all f xs instances) ≡ or_else (last_named f j xs) (lookup j instances)
lookup-insert_all f j [] instances = refl
lookup-insert_all f j (x ∷ xs) instances =
    lookup-insert_all f j xs (insert (f x).name (f x) instances)
    ∙ ap (or_else (last_named f j xs)) (lookup-insert (f x).name j (f x) instances)
    ∙ regroup (last_named f j xs) (text_eq (f x).name j)
  where
    regroup :
        (o : Option InstanceResponse) (b : Bool)
        → or_else o (if b then some (f x) else lookup j instances)
          ≡ or_else (or_else o (if b then some (f x) else none)) (lookup j instances)
    regroup none true = refl
    regroup none false = refl
    regroup (some y) b = refl

or_else-none : {A : Type 0} (o : Option A) → or_else o none ≡ o
or_else-none none = refl
or_else-none (some x) = refl

module _ {W : Type 0} (P : ProcessService W) (S : SpdkClient W)
    (is_engine_process : Text → Bool) where
  -- With the V2 engine enabled, and if the clients connect and every list can be had, InstanceList
  -- answers, and the instance of a name is the last V2 engine of that name, else the last V2
  -- replica, else the last process.
  pub instance_list-lookup :
      (j : Text) (w w1 w2 w3 : W) (processes : List (Text × ProcessResponse))
      (replicas : List SpdkReplica) (engines : List SpdkEngine)
      → ProcessService.connects P w ≡ true
      → ProcessService.list P w ≡ (w1, value processes)
      → SpdkClient.connects S w1 ≡ true
      → SpdkClient.replica_list S w1 ≡ (w2, value replicas)
      → SpdkClient.engine_list S w2 ≡ (w3, value engines)
      → (instances : Instances) × (instance_list P S is_engine_process true w
          ≡ (w3, value instances))
        × (lookup j instances
            ≡ or_else (last_named engine_response_to_instance_response j engines) (
                or_else
                  (last_named replica_response_to_instance_response j replicas)
                  (last_named (listed_process is_engine_process) j (values processes))))
  unfolding instance_list v1_list v2_list client_process_list lookup
  instance_list-lookup j w w1 w2 w3 processes replicas engines hc hp hs hr he =
      let listed = insert_all (listed_process is_engine_process) (values processes) [] in
      let with_replicas = insert_all replica_response_to_instance_response replicas listed in
      let f = engine_response_to_instance_response in
      (
        insert_all f engines with_replicas,
        rw (hc, hp, hs, hr, he) refl,
        lookup-insert_all f j engines with_replicas
            ∙ ap (or_else (last_named f j engines)) (
                lookup-insert_all replica_response_to_instance_response j replicas listed
                ∙ ap (or_else (last_named replica_response_to_instance_response j replicas)) (
                    lookup-insert_all (listed_process is_engine_process) j (values processes) []
                    ∙ or_else-none _)),
      )
