-- ===== src/Rpc/Shape.antt =====
-- The shape of every JSON-RPC response: its id, and its error member.
use systemd_monitoring_mcp.Base.{
  ◌≡◌, refl, true, false, Option, none, some, and_then, arith, ap, ◌∙◌, [], ◌∷◌, Option-cases, inl,
  inr,
}
use systemd_monitoring_mcp.Base.Int.{ℤ, minus}
use systemd_monitoring_mcp.Text.{Text, text, text_eq, text_compare}
use systemd_monitoring_mcp.Json.{
  Json, null, number, pos_int, neg_int, float, string, bool, array, object, fields, integer,
  json_object, literal, get_key, insert_all, as_object,
}
use systemd_monitoring_mcp.Errors.{
  AppError, bad_request, bad_request_with_details, unauthorized, forbidden,
}
use systemd_monitoring_mcp.Rpc.{
  RequestId, value_to_request_id, request_id_to_value, Sdk, SdkLaws, json_rpc_error_with_data,
  with_data, json_rpc_error, json_rpc_result, json_rpc_internal_error, app_error_to_json_rpc,
  is_json_rpc_error,
}

-- The id that a response carries: that of the request, or null where it has no usable one.
abbrev pub id_of : Option RequestId → Json
id_of none = null
id_of (some id) = request_id_to_value id

abbrev pub echoed : Option Json → Json
echoed id = id_of (and_then id value_to_request_id)

abbrev pub error_code : Json → Option Json
error_code response = and_then (get_key response (text "error")) (λ e. get_key e (text "code"))

-- Reading an id and writing it gives it back.
pub request_id_round_trip :
    (value : Json) (id : RequestId)
    → value_to_request_id value ≡ some id
    → request_id_to_value id ≡ value
unfolding value_to_request_id
request_id_round_trip (number (pos_int n)) id h = ground arith
request_id_round_trip (number (neg_int n)) id h = ground arith
request_id_round_trip (number (float s)) id h = cc
request_id_round_trip (string s) id h = ground arith
request_id_round_trip null id h = cc
request_id_round_trip (bool b) id h = cc
request_id_round_trip (array xs) id h = cc
request_id_round_trip (object fs) id h = cc

-- The code of each class of errors.
abbrev pub class_code : AppError → ℤ
class_code (bad_request _ _) = minus 32602
class_code (bad_request_with_details _ _ _) = minus 32602
class_code (unauthorized _ _) = minus 32001
class_code (forbidden _ _) = minus 32001
class_code _ = minus 32603

module _ (sdk : Sdk) (laws : SdkLaws sdk) where
  pub error_with_data_id :
      (id : Option Json) (code : ℤ) (message : Text) (more : Option Json)
      → get_key (json_rpc_error_with_data sdk id code message more) (text "id") ≡ some (echoed id)
  unfolding json_rpc_error_with_data get_key insert_all text_eq text_compare
  error_with_data_id id code message more = elim (Option-cases (and_then id value_to_request_id)) [
    | inl e ↦ rw (e, json_rpc_error_with_data)
    | inr (r, e) ↦ rw (e, json_rpc_error_with_data) (laws.error_id code message more r)
  ]

  pub error_with_data_code :
      (id : Option Json) (code : ℤ) (message : Text) (more : Option Json)
      → error_code (json_rpc_error_with_data sdk id code message more) ≡ some (integer code)
  unfolding json_rpc_error_with_data get_key insert_all text_eq text_compare
  error_with_data_code id code message more =
      elim (Option-cases (and_then id value_to_request_id)) [
        | inl e ↦ rw (e, json_rpc_error_with_data) (plain more)
        | inr (r, e) ↦
            let (error, at, is_code, _) = laws.error_error code message more r in
            rw (e, json_rpc_error_with_data) (rw at is_code)
      ]
    where
      plain :
          (d : Option Json)
          → error_code (
              json_object (
                (text "jsonrpc", literal "2.0")
                ∷ (text "id", null)
                ∷ (
                  text "error",
                  object (
                      with_data
                        (fields
                          ((text "code", integer code) ∷ (text "message", string message) ∷ []))
                        d),
                )
                ∷ []))
            ≡ some (integer code)
      plain none = refl
      plain (some d) = refl

  -- An error response is recognised as one by the audit.
  error_with_data-is_error :
      (id : Option Json) (code : ℤ) (message : Text) (more : Option Json)
      → is_json_rpc_error (json_rpc_error_with_data sdk id code message more) ≡ true
  unfolding is_json_rpc_error
  error_with_data-is_error id code message more =
      ground (arith, error_with_data_code id code message more)

  -- A result carries the id of a request that has a usable one, and no error.
  pub result_shape :
      (id result : Json) (r : RequestId)
      → value_to_request_id id ≡ some r
      → (get_key (json_rpc_result sdk (some id) result) (text "id") ≡ some id)
        × (is_json_rpc_error (json_rpc_result sdk (some id) result) ≡ false)
  unfolding json_rpc_result is_json_rpc_error
  result_shape id result r h =
      rw (h, json_rpc_result)
        (
          laws.result_id r (as_object result) ∙ ap some (request_id_round_trip id r h),
          rw (laws.result_error r (as_object result)),
        )

  -- Every application error becomes an error response with the request's id and the code of its
  -- class.
  pub app_error_shape :
      (id : Option Json) (error : AppError)
      → (get_key (app_error_to_json_rpc sdk id error) (text "id") ≡ some (echoed id))
        × (error_code (app_error_to_json_rpc sdk id error) ≡ some (integer (class_code error)))
        × (is_json_rpc_error (app_error_to_json_rpc sdk id error) ≡ true)
  unfolding app_error_to_json_rpc json_rpc_internal_error json_rpc_error
  app_error_shape id (bad_request _ _) = (
    error_with_data_id id _ _ _,
    error_with_data_code id _ _ _,
    error_with_data-is_error id _ _ _,
  )
  app_error_shape id _ = (
    error_with_data_id id _ _ _,
    error_with_data_code id _ _ _,
    error_with_data-is_error id _ _ _,
  )
