-- ===== src/Http/Batch.antt =====
-- Batches of messages.
use systemd_monitoring_mcp.Base.{
  ◌≡◌, refl, ap, ◌∙◌, Option, none, some, List, [], ◌∷◌, ◌++◌, Option-cases, inl, inr, map,
}
use systemd_monitoring_mcp.Json.{Json, array, items, json_array}
use systemd_monitoring_mcp.Env.{Env}
use systemd_monitoring_mcp.Server.{AuditEntry, handle_json_rpc_value}
use systemd_monitoring_mcp.Server.Version.{Kit}
use systemd_monitoring_mcp.Http.{
  Web, handle_batch, handle_payload, batch_response, json_response, no_content,
}

-- The values that are there, and all lists one after the other.
abbrev pub present {ℓ} : {A : Type ℓ} → List (Option A) → List A
present [] = []
present (none ∷ rest) = present rest
present (some a ∷ rest) = a ∷ present rest

abbrev pub joined {ℓ} : {A : Type ℓ} → List (List A) → List A
joined [] = []
joined (xs ∷ rest) = xs ++ joined rest

module _ (env : Env) (kit : Kit) (web : Web) where
  -- Each message of a batch, handled by itself
  abbrev pub single_answers : List Json → List (Option Json)
  single_answers messages = map (λ m. (handle_json_rpc_value env kit m).0) messages

  abbrev pub single_audits : List Json → List (List AuditEntry)
  single_audits messages = map (λ m. (handle_json_rpc_value env kit m).1) messages

  batch_single :
      (messages : List Json)
      → handle_batch env kit web (items messages)
        ≡ (present (single_answers messages), joined (single_audits messages))
  unfolding handle_batch
  batch_single [] = refl
  batch_single (m ∷ rest) = elim (Option-cases (handle_json_rpc_value env kit m).0) [
    | inl e ↦ rw (e, batch_single rest)
    | inr (answer, e) ↦ rw (e, batch_single rest)
  ]

  -- A batch of at least one message has the answers of its messages, each handled by itself, in
  -- their order as its answer, or status 204 and no body if none of them is answered; and the
  -- audit log gets the entries of each message in that order.
  pub batch_answered :
      (m : Json) (rest : List Json)
      → (handle_payload env kit web (array (items (m ∷ rest)))).1
          ≡ joined (single_audits (m ∷ rest))
        × (present (single_answers (m ∷ rest)) ≡ []
            → (handle_payload env kit web (array (items (m ∷ rest)))).0 ≡ no_content)
        × ((first : Json) (others : List Json)
            → present (single_answers (m ∷ rest)) ≡ first ∷ others
            → (handle_payload env kit web (array (items (m ∷ rest)))).0
              ≡ json_response 200 (json_array (first ∷ others)))
  unfolding handle_payload
  batch_answered m rest = (
    ap (λ r. r.1) (batch_single (m ∷ rest)),
    λ h.
        ap (λ r. batch_response env kit web r.0) (batch_single (m ∷ rest))
        ∙ ap (batch_response env kit web) h,
    λ first others h.
        ap (λ r. batch_response env kit web r.0) (batch_single (m ∷ rest))
        ∙ ap (batch_response env kit web) h,
  )
