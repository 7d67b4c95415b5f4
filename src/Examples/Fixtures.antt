-- ===== src/Examples/Fixtures.antt =====
-- Concrete providers, libraries and requests.
use systemd_monitoring_mcp.Base.{
  ◌+◌, ◌*◌, ◌≡◌, refl, sym, ap, ◌∙◌, true, false, Option, none, some, List, [], ◌∷◌, Option-cases,
  inl, inr, ok, err,
}
use systemd_monitoring_mcp.Base.Int.{ℤ, pos}
use systemd_monitoring_mcp.Text.{Text, text}
use systemd_monitoring_mcp.Json.{
  Json, Fields, end, field, object, string, null, integer, get_key, number, pos_int,
}
use systemd_monitoring_mcp.Rpc.{RequestId, request_id_to_value, value_to_request_id, Sdk, SdkLaws}
use systemd_monitoring_mcp.Rpc.Shape.{request_id_round_trip}
use systemd_monitoring_mcp.Errors.{internal}
use systemd_monitoring_mcp.Units.{UnitStatus, TimerStatus, JournalLogEntry}
use systemd_monitoring_mcp.Env.{Env, UnitProvider, Decoders}
use systemd_monitoring_mcp.Server.Version.{
  Kit, KitLaws, JsonrpcMessage, JsonrpcRequest, request, notification,
}
use systemd_monitoring_mcp.Http.{Web}

abbrev error_fields : ℤ → Text → Option Json → Fields
error_fields code message none =
    field (text "code") (integer code) (field (text "message") (string message) end)
error_fields code message (some d) =
    field (text "code") (integer code)
      (field (text "data") d (field (text "message") (string message) end))

abbrev pub sdk : Sdk
sdk = record {
  error_response = λ code message more id. object (
      field (text "error") (object (error_fields code message more))
        (field (text "id") (request_id_to_value id) end));
  result_response = λ id extra. object (field (text "id") (request_id_to_value id) end);
  call_tool_result = λ message content. object content;
  read_resource_result = λ content uri. object (field (text "uri") (string uri) end);
  to_text = λ value. text "{}";
}

pub sdk-SdkLaws : SdkLaws sdk
unfolding get_key
sdk-SdkLaws = record {
  error_id = λ code message more id. refl;
  result_id = λ id extra. refl;
  error_error = λ code message more id. (
    object (error_fields code message more),
    refl,
    code_of code message more,
    data_of code message more,
  );
  result_error = λ id extra. refl;
}
  where
    code_of :
        (code : ℤ) (message : Text) (more : Option Json)
        → get_key (object (error_fields code message more)) (text "code") ≡ some (integer code)
    code_of code message none = refl
    code_of code message (some d) = refl

    data_of :
        (code : ℤ) (message : Text) (more : Option Json)
        → get_key (object (error_fields code message more)) (text "data") ≡ more
    data_of code message none = refl
    data_of code message (some d) = refl

-- Every value with a usable id is a call of `list_services`, every other a ping without an id.
abbrev decoded : Option RequestId → Option JsonrpcMessage
decoded none = none
decoded (some id) =
    some (request (record { id = id; method = text "tools/call"; params = some end }))

abbrev message : Option Json → Option JsonrpcMessage
message none = some (notification (text "ping") none)
message (some id) = decoded (value_to_request_id id)

abbrev pub kit : Kit
kit = record {
  message = λ payload. message (get_key payload (text "id"));
  conforms = λ type r. true;
  known_version = λ version. none;
  initialize_result = λ version. object (field (text "protocolVersion") (string version) end);
  tools_list_result = object end;
  resources_list_result = λ resources. object end;
  from_ymd_opt = λ year month day. some (year * 372 + month * 31 + day);
}

message_id :
    (id : Option Json) (r : JsonrpcRequest)
    → message id ≡ some (request r)
    → id ≡ some (request_id_to_value r.id)
message_id none r h = absurd (cc h)
message_id (some value) r h = elim (Option-cases (value_to_request_id value)) [
  | inl e ↦ absurd (cc (rw e at h))
  | inr (id, e) ↦
      let same : id ≡ r.id = cc (rw e at h) in
      ap some (sym (request_id_round_trip value id e) ∙ ap request_id_to_value same)
]

pub kit-KitLaws : KitLaws kit
kit-KitLaws = record { message_id = λ payload r h. message_id (get_key payload (text "id")) r h }

abbrev pub service : Text → Text → UnitStatus
service unit state = record {
  unit = unit;
  scope = text "system";
  description = text "";
  load_state = text "loaded";
  active_state = state;
  sub_state = text "running";
  unit_file_state = none;
  since_utc = none;
  main_pid = none;
  exec_main_status = none;
  result = none;
}

abbrev pub services : List UnitStatus
services =
    service (text "sshd.service") (text "active")
    ∷ service (text "cron.service") (text "failed")
    ∷ []

abbrev pub timer : TimerStatus
timer = record {
  unit = text "backup.timer";
  scope = text "system";
  load_state = text "loaded";
  active_state = text "active";
  sub_state = text "waiting";
  unit_file_state = none;
  next_run_utc = some (text "then");
  last_run_utc = none;
  trigger_unit = none;
  persistent = none;
  result = none;
}

abbrev pub entry : JournalLogEntry
entry = record {
  timestamp_utc = text "2026-01-01T00:00:00.000Z";
  unit = some (text "sshd.service");
  priority = some (text "3");
  hostname = none;
  pid = none;
  message = some (text "failed");
  cursor = some (text "s=1");
}

abbrev units : UnitProvider
units = record {
  system_state = λ scope. ok (text "running");
  list_service_units = λ scope. ok services;
  get_unit_status = λ unit scope limit. ok null;
  list_timer_units = λ scope. ok (timer ∷ []);
  list_journal_logs =
      λ query. ok (record { entries = entry ∷ []; total_scanned = none; has_more = false });
  unit_main_start = λ unit scope. ok none;
}

abbrev decode : Decoders
decode = record {
  services_params = λ arguments.
      some
        (record { scope = none; state = none; name_contains = none; limit = none; summary = none });
  logs_params = λ arguments. none;
  unit_status_params = λ arguments. none;
  container_params = λ arguments. none;
  pod_params = λ arguments. none;
  call_tool_params = λ params. some (text "list_services", none);
  read_resource_params = λ params. none;
}

-- A clock that stands at ten minutes after the epoch; every time that is read is the epoch.
abbrev pub env : Env
env = record {
  units = units;
  podman = record {
    container_status = λ name. err (internal "internal_error" (text "no podman"));
    pod_status = λ name. err (internal "internal_error" (text "no podman"));
  };
  now = pos 600000000000;
  generated_at = pos 600000000000;
  parse_from_rfc3339 = λ value. some (pos 0, pos 0);
  to_rfc3339_millis = λ time. text "1970-01-01T00:00:00.000Z";
  decode = decode;
  sdk = sdk;
}

-- The same host while it is shutting down
abbrev pub other : Env
other = record env { units = record units { system_state = λ scope. ok (text "stopping") } }

-- A header is its token; an HMAC that keeps its text.
abbrev pub web : Web
web = record {
  from_slice = λ body. some (object end);
  decode_bearer = λ header. some header;
  hmac = λ token. token;
  package_name = text "systemd-monitoring-mcp";
  package_version = text "0";
}

-- `{"id": 7}`, `{"id": null}` and `{}`
abbrev pub seven : Json
seven = number (pos_int 7)

abbrev pub call : Json
call = object (field (text "id") seven end)

abbrev pub bad_call : Json
bad_call = object (field (text "id") null end)

abbrev pub note : Json
note = object end
