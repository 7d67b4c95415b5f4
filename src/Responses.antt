-- ===== src/Responses.antt =====
-- domain/responses.rs: pages of rows and the envelopes of successful answers.
pub mod Pages
use systemd_monitoring_mcp.Base.{ℕ, Bool, Option, List, [], ◌∷◌, ltb, length, take}
use systemd_monitoring_mcp.Text.{Text, text}
use systemd_monitoring_mcp.Json.{Json, Fields, json_object}
use systemd_monitoring_mcp.Rpc.{Sdk, json_rpc_result}

pub record Pagination {ℓ} (T : Type ℓ) : Type ℓ where
  pub rows : List T
  pub total : ℕ
  pub returned : ℕ
  pub truncated : Bool

unfoldable pub paginate_rows {ℓ} : {T : Type ℓ} → List T → ℕ → Pagination T
paginate_rows rows limit =
    let total = length rows in
    let kept = take limit rows in
    let returned = length kept in
    record { rows = kept; total = total; returned = returned; truncated = ltb returned total }

module _ (sdk : Sdk) where
  unfoldable pub tool_success_response : Option Json → Text → Fields → Json
  tool_success_response id message structured_content =
      json_rpc_result sdk id (sdk.call_tool_result message structured_content)

  unfoldable pub json_text_resource_response : Option Json → Text → Json → Json
  json_text_resource_response id uri structured_content =
      json_rpc_result sdk id (sdk.read_resource_result (sdk.to_text structured_content) uri)
