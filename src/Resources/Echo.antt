-- ===== src/Resources/Echo.antt =====
-- Every answer to `resources/read` carries the request's id.
use systemd_monitoring_mcp.Base.{◌≡◌, Option, none, some, Option-cases, Result-cases, inl, inr}
use systemd_monitoring_mcp.Text.{Text, text, text_eq}
use systemd_monitoring_mcp.Json.{Json}
use systemd_monitoring_mcp.Units.{system}
use systemd_monitoring_mcp.Rpc.{RequestId, value_to_request_id, SdkLaws}
use systemd_monitoring_mcp.Responses.{json_text_resource_response}
use systemd_monitoring_mcp.Env.{Env}
use systemd_monitoring_mcp.Tools.Echo.{
  Echoes, error-Echoes, invalid_params-Echoes, not_found-Echoes, result-Echoes, if-Echoes,
}
use systemd_monitoring_mcp.Resources.{
  services_snapshot, logs_snapshot, read_resource, handle_resources_read, services_resource_uri,
  last_hour, failed_services_resource_uri, logs_resource_uri,
}

module _ (env : Env) (laws : SdkLaws env.sdk) (id : Json) (r : RequestId)
    (usable : value_to_request_id id ≡ some r) where
  content-Echoes :
      (uri : Text) (content : Json)
      → Echoes env laws id r usable (json_text_resource_response env.sdk (some id) uri content)
  unfolding json_text_resource_response
  content-Echoes uri content = result-Echoes env laws id r usable _

  services-Echoes :
      (uri : Text) (state : Option Text)
      → Echoes env laws id r usable (services_snapshot env (some id) uri state)
  unfolding services_snapshot
  services-Echoes uri state = elim (Result-cases (env.units.list_service_units system)) [
    | inr (error, e) ↦ rw (e, services_snapshot) (error-Echoes env laws id r usable error)
    | inl (services, e) ↦ rw (e, services_snapshot) (content-Echoes uri _)
  ]

  logs-Echoes : Echoes env laws id r usable (logs_snapshot env (some id))
  unfolding logs_snapshot
  logs-Echoes = elim (Result-cases (env.units.list_journal_logs (last_hour env.now))) [
    | inr (error, e) ↦ rw (e, logs_snapshot) (error-Echoes env laws id r usable error)
    | inl (found, e) ↦ rw (e, logs_snapshot) (content-Echoes logs_resource_uri _)
  ]

  read_resource-Echoes :
      (uri : Text) → Echoes env laws id r usable (read_resource env (some id) uri)
  unfolding read_resource
  read_resource-Echoes uri =
      if-Echoes env laws id r usable (text_eq uri services_resource_uri) _ _
        (services-Echoes services_resource_uri none)
        (if-Echoes env laws id r usable (text_eq uri failed_services_resource_uri) _ _
          (services-Echoes failed_services_resource_uri (some (text "failed")))
          (if-Echoes env laws id r usable (text_eq uri logs_resource_uri) _ _ logs-Echoes
            (not_found-Echoes env laws id r usable _)))

  pub resources_read-Echoes :
      (params : Option Json)
      → Echoes env laws id r usable (handle_resources_read env (some id) params)
  unfolding handle_resources_read
  resources_read-Echoes none = invalid_params-Echoes env laws id r usable
  resources_read-Echoes (some raw) = elim (Option-cases (env.decode.read_resource_params raw)) [
    | inl e ↦ rw (e, handle_resources_read) (invalid_params-Echoes env laws id r usable)
    | inr (uri, e) ↦ rw (e, handle_resources_read) (read_resource-Echoes uri)
  ]
