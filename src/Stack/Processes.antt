-- ===== src/Stack/Processes.antt =====
-- What a client of the instance service sees of the processes of a process manager.
use longhorn_engine_launcher.Prelude.{ℕ, ◌≡◌, refl, ◌∙◌, Bool, false, none, some, if◌then◌else◌}
use longhorn_engine_launcher.Prelude.Int.{pos, to_i32}
use longhorn_engine_launcher.Prelude.Text.{Text, codes, text_eq, text_eq_refl, is_empty}
use longhorn_engine_launcher.Prelude.Dict.{lookup}
use longhorn_engine_launcher.Process.{ProcessResponse, rpc_response}
use longhorn_engine_launcher.Ports.{PortBitmap, PortLaws}
use longhorn_engine_launcher.Manager.{Manager, Error, Outcome, ok, err}
use longhorn_engine_launcher.Manager.Handlers.{
  Env, ProcessSpec, new_process, process_create, process_get,
}
use longhorn_engine_launcher.Manager.Ownership.Placing.{answer}
use longhorn_engine_launcher.Manager.Registry.Creating.{
  IsAccepted, process_create-name, process_create-ok,
}
use longhorn_engine_launcher.Rpc.{
  Failure, wrapped, Result, value, failure, answer_with, LogStream, state_name,
}
use longhorn_engine_launcher.Client.{process_spec, client_process_create, client_process_get}
use longhorn_engine_launcher.Instance.{
  DataEngine, v1, engine_type, process_response_to_instance_response,
}
use longhorn_engine_launcher.Instance.Operations.{SpdkClient, v1_create, v1_get, create_with}
use longhorn_engine_launcher.Instance.Server.{instance_create, instance_get}
use longhorn_engine_launcher.InstanceClient.{
  InstanceService, InstanceCreateRequest, InstanceInfo, get_data_engine, data_engine_text,
  rpc_to_instance, create_spec,
}
use longhorn_engine_launcher.InstanceClient.Serving.{
  client_instance_create, client_instance_get, create_for, as_instance,
}
use longhorn_engine_launcher.Stack.{carried, result_of, manager_service, instance_service}

-- The process as a client of the instance service is to see it: an instance of the V1 data engine
-- with the ports of the process, which are also the ports of the target of an engine, and none of a
-- standby target. No instance is seen as deleted.
abbrev pub seen : ProcessResponse → Text → InstanceInfo
seen p type = record {
  name = p.name;
  type = type;
  data_engine = codes "v1";
  port_count = to_i32 p.port_count;
  port_args = p.port_args;
  process_instance_spec = some (record { binary = p.binary; args = p.args });
  state = state_name p.state;
  error_msg = p.error_msg;
  conditions = p.conditions;
  port_start = p.port_start;
  port_end = p.port_end;
  target_port_start = if text_eq type engine_type then p.port_start else pos 0;
  target_port_end = if text_eq type engine_type then p.port_end else pos 0;
  standby_target_port_start = pos 0;
  standby_target_port_end = pos 0;
  deleted = false;
}

rpc_to_instance-seen :
    (p : ProcessResponse) (type : Text)
    → rpc_to_instance (process_response_to_instance_response p type) ≡ seen p type
unfolding rpc_to_instance process_response_to_instance_response data_engine_text
rpc_to_instance-seen p type = refl

-- The specification of the process of a request, after the conversions on the way.
abbrev pub spec_of : InstanceCreateRequest → ProcessSpec
spec_of req = process_spec req.name req.binary (to_i32 req.port_count) req.binary_args req.port_args

module _ {Bitmap : Type 0} (B : PortBitmap Bitmap) (env : Env)
    (world : ℕ → Manager Bitmap → Manager Bitmap) (failure_of : Error → Failure)
    (process_log : Text → Manager Bitmap → Manager Bitmap × Result LogStream)
    (S : SpdkClient (Manager Bitmap)) (carry : Failure → Failure) (is_engine_process : Text → Bool)
    (v2_data_engine_enabled : Bool)
    (log : Text → DataEngine → Manager Bitmap → Manager Bitmap × Result LogStream) where
  abbrev pub services : InstanceService (Manager Bitmap)
  services =
      instance_service (manager_service B env world failure_of process_log) S carry
        is_engine_process v2_data_engine_enabled log

  -- What the client makes of the manager's answer.
  abbrev pub seen_outcome : Text → Outcome ProcessResponse → Result InstanceInfo
  seen_outcome type (ok p) = value (seen p type)
  seen_outcome type (err e) = failure (wrapped (carry (failure_of e)))

  seen-answer :
      (type : Text) (m : Manager Bitmap) (o : Outcome ProcessResponse)
      → as_instance (
          carried carry (
            answer_with
              (λ (p : ProcessResponse). process_response_to_instance_response p type)
              (m, result_of failure_of o)))
        ≡ (m, seen_outcome type o)
  seen-answer type m (ok p) = rw (rpc_to_instance-seen p type) refl
  seen-answer type m (err e) = refl

  -- Getting an instance of the V1 data engine by a name that is not empty through all the services is
  -- getting the process of that name from the process manager: the client sees that process as an
  -- instance, with its ports, state and specification, or the manager's error, carried and wrapped,
  -- and no state changes.
  pub client_instance_get-process_get :
      (data_engine name type : Text) (m : Manager Bitmap)
      → is_empty name ≡ false
      → get_data_engine data_engine ≡ v1
      → client_instance_get services data_engine name type m
        ≡ (m, seen_outcome type (process_get B name m))
  unfolding client_instance_get instance_get v1_get client_process_get
  client_instance_get-process_get data_engine name type m named engine_v1 =
      rw (named, engine_v1) (rw named (seen-answer type m (process_get B name m)))

  -- The same for the making of an instance, with the specification that arrives at the manager.
  pub client_instance_create-process_create :
      (req : InstanceCreateRequest) (m : Manager Bitmap)
      → is_empty req.name ≡ false
      → is_empty req.instance_type ≡ false
      → is_empty req.binary ≡ false
      → get_data_engine req.data_engine ≡ v1
      → client_instance_create services req m ≡ (
        (process_create B env (spec_of req) m).0,
        seen_outcome req.instance_type (process_create B env (spec_of req) m).1,
      )
  unfolding client_instance_create create_for instance_create v1_create create_with create_spec
      client_process_create
  client_instance_create-process_create req m named typed runs engine_v1 =
      rw (named, typed, engine_v1)
        (rw (named, runs)
          (seen-answer req.instance_type (process_create B env (spec_of req) m).0
            (process_create B env (spec_of req) m).1))

  process_get-found :
      (name : Text) (r : ℕ) (m : Manager Bitmap)
      → lookup name m.processes ≡ some r
      → process_get B name m ≡ ok (rpc_response (m.heap r))
  unfolding process_get
  process_get-found name r m h = rw h refl

  -- An instance of the V1 data engine that a client makes is answered as a value, if its name, type
  -- and binary are not empty, its log file can be opened, its name is free and its ports can be had:
  -- nothing else running between the sections of the creation, the name then stands for the new
  -- process, which has that name, and the answer is that process as an instance of the type asked
  -- for. Whatever happens later, as long as the name stands for that process, getting the instance
  -- answers what the process is by then, and changes nothing.
  pub create-get :
      (L : PortLaws B) (req : InstanceCreateRequest) (m later : Manager Bitmap)
      → IsAccepted env (spec_of req)
      → is_empty req.instance_type ≡ false
      → get_data_engine req.data_engine ≡ v1
      → lookup req.name m.processes ≡ none
      → answer B L (new_process env (spec_of req)) m ≡ ok tt
      → lookup req.name later.processes ≡ some m.next_ref
      → let made = client_instance_create services req m in
        (lookup req.name made.0.processes ≡ some m.next_ref)
        × ((made.0.heap m.next_ref).name ≡ req.name)
        × (made.1 ≡ value (seen (rpc_response (made.0.heap m.next_ref)) req.instance_type))
        × (client_instance_get services req.data_engine req.name req.instance_type later
            ≡ (later, value (seen (rpc_response (later.heap m.next_ref)) req.instance_type)))
  create-get L req m later accepted typed engine_v1 absent granted stands =
      let made = process_create-ok B L env (spec_of req) m req.name accepted absent granted in
      let sent =
        client_instance_create-process_create req m accepted.0 typed accepted.1 engine_v1 in
      (
        rw sent (made.0 ∙ (rw (text_eq_refl req.name) refl)),
        rw sent (process_create-name B L env (spec_of req) m accepted absent granted),
        rw (sent, made.1) refl,
        client_instance_get-process_get req.data_engine req.name req.instance_type later accepted.0
              engine_v1
            ∙ (rw (process_get-found req.name m.next_ref later stands) refl),
      )
