-- ===== src/Server/Version.antt =====
-- What the server takes from the MCP kit, and the negotiation of the protocol's version.
use systemd_monitoring_mcp.Base.{
  ℕ, ◌-◌, ◌^◌, ◌==◌, ◌≡◌, not, ◌||◌, Bool, Option, none, some, List, [], ◌∷◌, leb, if◌then◌else◌,
  all_by, and_then, option_map, keep_if, Result, ok, err, ◌>>=◌, ok_or,
}
use systemd_monitoring_mcp.Text.{Text, text, is_empty, trim, byte_len, is_ascii_digit}
use systemd_monitoring_mcp.Text.Number.{parse_unsigned}
use systemd_monitoring_mcp.Json.{Json, Fields, as_object, as_str, get, get_key}
use systemd_monitoring_mcp.Errors.{AppError, bad_request}
use systemd_monitoring_mcp.Rpc.{RequestId, request_id_to_value}
use systemd_monitoring_mcp.Resources.{Resource}

pub record JsonrpcRequest : Type 0 where
  pub id : RequestId
  pub method : Text
  pub params : Option Fields

pub data JsonrpcMessage : Type 0 where
  request : JsonrpcRequest → JsonrpcMessage
  notification : Text → Option Fields → JsonrpcMessage
  result_response error_response : JsonrpcMessage

pub data RequestType : Type 0 where
  call_tool_request read_resource_request list_tools_request list_resources_request : RequestType
  ping_request initialize_request : RequestType

pub record Kit : Type 0 where
  -- `serde_json::from_value::<JsonrpcMessage>`
  pub message : Json → Option JsonrpcMessage
  -- Whether a request, serialised, is one of the given type
  pub conforms : RequestType → JsonrpcRequest → Bool
  -- `ProtocolVersion::try_from`, by the text that the version prints as
  pub known_version : Text → Option Text
  -- What `InitializeResult` of a version, `ListToolsResult` of the tools of `build_tools_list` and
  -- `ListResourcesResult` serialise as
  pub initialize_result : Text → Json
  pub tools_list_result : Json
  pub resources_list_result : List Resource → Json
  -- `NaiveDate::from_ymd_opt`: a date is the number of its day.
  pub from_ymd_opt : ℕ → ℕ → ℕ → Option ℕ

-- A request decodes with the id that it has, and dates are those of the calendar.
pub record KitLaws (kit : Kit) : Type 0 where
  pub message_id :
      (payload : Json) (r : JsonrpcRequest)
      → kit.message payload ≡ some (request r)
      → get_key payload (text "id") ≡ some (request_id_to_value r.id)

abbrev pub min_supported_protocol_version : Text
min_supported_protocol_version = text "2024-11-05"

-- `ProtocolVersion::V2025_03_26`
abbrev pub fallback_protocol_version : Text
fallback_protocol_version = text "2025-03-26"

abbrev before : ℕ → List Text → List Text
before c [] = (c ∷ []) ∷ []
before c (part ∷ parts) = (c ∷ part) ∷ parts

-- `str::split` at a character
unfoldable pub split : ℕ → Text → List Text
split d [] = [] ∷ []
split d (c ∷ s) = let parts = split d s in if c == d then [] ∷ parts else before c parts

all_digits : Text → Bool
all_digits s = all_by is_ascii_digit s

module _ (kit : Kit) where
  unfoldable pub date_of_parts : List Text → Option ℕ
  unfolding all_digits byte_len parse_unsigned
  date_of_parts (year ∷ month ∷ day ∷ []) =
      if not (byte_len year == 4)
        || not (byte_len month == 2)
        || not (byte_len day == 2)
        || not (all_digits year)
        || not (all_digits month)
        || not (all_digits day)
      then none
      else and_then (parse_unsigned (2 ^ 31 - 1) year) λ year.
        and_then (parse_unsigned (2 ^ 32 - 1) month)
          λ month. and_then (parse_unsigned (2 ^ 32 - 1) day) λ day. kit.from_ymd_opt year month day
  date_of_parts _ = none

  unfoldable pub parse_protocol_version_date : Text → Option ℕ
  unfolding split byte_len date_of_parts
  parse_protocol_version_date version =
      if not (byte_len version == 10) then none else date_of_parts (split b'-' version)

  abbrev pub unsupported : AppError
  unsupported = bad_request "unsupported_protocol_version" "unsupported initialize protocolVersion"

  unfoldable pub offered_version : Option Json → Option Text
  unfolding get trim
  offered_version params =
      keep_if (λ version. not (is_empty version))
        (option_map trim (
          and_then (and_then params as_object)
            (λ object. and_then (get object (text "protocolVersion")) as_str)))

  -- The comparison with the oldest supported date, whose parse is an `expect`
  unfoldable pub fallback_for : Option ℕ → Text → Result Text AppError
  unfolding parse_protocol_version_date
  fallback_for none offered = err unsupported
  fallback_for (some oldest) offered = do
    date ← ok_or (parse_protocol_version_date offered) unsupported
    if leb oldest date then ok fallback_protocol_version else err unsupported

  unfoldable pub negotiate_version : Text → Result Text AppError
  unfolding fallback_for parse_protocol_version_date
  negotiate_version offered = elim (kit.known_version offered) [
    | some version ↦ ok version
    | none ↦ fallback_for (parse_protocol_version_date min_supported_protocol_version) offered
  ]

  unfoldable pub negotiate_protocol_version : Option Json → Result Text AppError
  unfolding offered_version negotiate_version
  negotiate_protocol_version params = elim (offered_version params) [
    | none ↦
        err (bad_request "invalid_protocol_version" "initialize params.protocolVersion is required")
    | some offered ↦ negotiate_version offered
  ]
