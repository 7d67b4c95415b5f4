-- ===== src/Podman/Alike.antt =====
-- Parts of podman's raw answers that are shown alike.
use systemd_monitoring_mcp.Base.{
  ◌≡◌, refl, ap, ap₂, ◌∙◌, ◌⊎◌, true, false, Option, none, some, List, [], ◌∷◌, All, unwrap_or,
  and_then, option_map, Option-cases, inl, inr,
}
use systemd_monitoring_mcp.Text.{Text, text, text_eq, one_of}
use systemd_monitoring_mcp.Json.{
  Json, null, array, object, Items, nil, cons, Fields, end, as_array, get, get_key, insert,
}
use systemd_monitoring_mcp.Podman.Argv.{sanitize_argv}
use systemd_monitoring_mcp.Podman.Secrets.{SameButSecrets, sanitize_argv_hides}
use systemd_monitoring_mcp.Podman.Compact.{
  at, pointer, health_names, insert_present, compact_health_config, map_items, mount_json,
  health_json,
}

-- Two commands that differ in their secrets only
abbrev pub SameCommand : Option Json → Option Json → Type 0
SameCommand a b =
    (a ≡ b)
    ⊎ ((xs : Items) × (ys : Items) × (a ≡ some (array xs))
        × (b ≡ some (array ys))
        × SameButSecrets false xs ys)

-- The fields of a health configuration that are shown, beside its test
abbrev pub health_keys : List Text
health_keys =
    text "Interval"
    ∷ text "Timeout"
    ∷ text "StartPeriod"
    ∷ text "StartInterval"
    ∷ text "Retries"
    ∷ []

-- Two configurations whose health configurations agree on the fields above, and whose tests differ in
-- their secrets only
abbrev pub SameHealth : Json → Json → Type 0
SameHealth c d =
    (get_key c (text "Healthcheck") ≡ get_key d (text "Healthcheck"))
    ⊎ ((h : Fields) × (k : Fields) × (get_key c (text "Healthcheck") ≡ some (object h))
        × (get_key d (text "Healthcheck") ≡ some (object k))
        × SameCommand (get h (text "Test")) (get k (text "Test"))
        × ((key : Text) → one_of key health_keys ≡ true → get h key ≡ get k key))

-- The fields of a mount that are shown
abbrev pub mount_keys : List Text
mount_keys = text "Type" ∷ text "Destination" ∷ text "RW" ∷ []

-- Two lists of mounts that agree on these, one by one
pub data SameMounts : Items → Items → Type 0 where
  same_none : SameMounts nil nil
  same_mount :
      {m n : Json} {xs ys : Items}
      → ((key : Text) → one_of key mount_keys ≡ true → get_key m key ≡ get_key n key)
      → SameMounts xs ys
      → SameMounts (cons m xs) (cons n ys)

abbrev pub SameMountsAt : Option Json → Option Json → Type 0
SameMountsAt a b =
    (a ≡ b)
    ⊎ ((xs : Items) × (ys : Items) × (a ≡ some (array xs))
        × (b ≡ some (array ys))
        × SameMounts xs ys)

-- The fields of a state that are shown, beside its health
abbrev pub state_keys : List Text
state_keys =
    text "Status"
    ∷ text "Running"
    ∷ text "ExitCode"
    ∷ text "Error"
    ∷ text "StartedAt"
    ∷ text "FinishedAt"
    ∷ text "UID"
    ∷ text "GID"
    ∷ text "HostUID"
    ∷ text "HostGID"
    ∷ []

-- Two states that agree on these and on the status of their health
pub record SameState (s t : Json) : Type 0 where
  pub fields : (key : Text) → one_of key state_keys ≡ true → get_key s key ≡ get_key t key
  pub health :
      (get_key s (text "Health") ≡ get_key t (text "Health"))
      ⊎ ((h : Json) × (k : Json) × (get_key s (text "Health") ≡ some h)
          × (get_key t (text "Health") ≡ some k)
          × (get_key h (text "Status") ≡ get_key k (text "Status")))

pub sanitize_argv_same : (a b : Option Json) → SameCommand a b → sanitize_argv a ≡ sanitize_argv b
sanitize_argv_same a b (inl e) = ap sanitize_argv e
sanitize_argv_same a b (inr (xs, ys, e, f, h)) = rw (e, f) (sanitize_argv_hides xs ys h)

insert_present_same :
    (h k : Fields) (names : List (Text × Text)) (compact : Fields)
    → All (λ name. get h name.1 ≡ get k name.1) names
    → insert_present h names compact ≡ insert_present k names compact
unfolding insert_present
insert_present_same h k [] compact same = refl
insert_present_same h k ((public_name, inspect_name) ∷ names) compact same =
    elim (Option-cases (get k inspect_name)) [
      | inl e ↦
          let f : get h inspect_name ≡ none = same.0 ∙ e in
          rw (insert_present, e, f) (insert_present_same h k names compact same.1)
      | inr (value, e) ↦
          let f : get h inspect_name ≡ some value = same.0 ∙ e in
          rw (insert_present, e, f)
            (insert_present_same h k names (insert public_name value compact) same.1)
    ]

pub compact_health_config_same :
    (c d : Json) → SameHealth c d → compact_health_config c ≡ compact_health_config d
unfolding compact_health_config one_of text_eq
compact_health_config_same c d (inl e) = rw (compact_health_config, e) refl
compact_health_config_same c d (inr (h, k, e, f, test, keys)) =
    let tests = sanitize_argv_same (get h (text "Test")) (get k (text "Test")) test in
    let start = insert (text "test") (sanitize_argv (get k (text "Test"))) end in
    rw (compact_health_config, e, f, tests)
      (ap object (
        insert_present_same h k health_names start (
          keys (text "Interval") refl,
          (
            keys (text "Timeout") refl,
            (
              keys (text "StartPeriod") refl,
              (keys (text "StartInterval") refl, (keys (text "Retries") refl, tt)),
            ),
          ),
        )))

pub at-key :
    (v w : Json) (key : Text) → get_key v key ≡ get_key w key → at v (key ∷ []) ≡ at w (key ∷ [])
unfolding at pointer
at-key v w key h = ap (λ r. unwrap_or (and_then r (λ inner. pointer inner [])) null) h

mount_json_same :
    (m n : Json)
    → ((key : Text) → one_of key mount_keys ≡ true → get_key m key ≡ get_key n key)
    → mount_json m ≡ mount_json n
unfolding one_of text_eq
mount_json_same m n h = rw (
  at-key m n (text "Type") (h (text "Type") refl),
  at-key m n (text "Destination") (h (text "Destination") refl),
  at-key m n (text "RW") (h (text "RW") refl),
)

map_items_same :
    {xs ys : Items} → SameMounts xs ys → map_items mount_json xs ≡ map_items mount_json ys
map_items_same same_none = refl
map_items_same (same_mount {m} {n} h rest) = ap₂ cons (mount_json_same m n h) (map_items_same rest)

pub mounts_same :
    (a b : Option Json)
    → SameMountsAt a b
    → map_items mount_json (unwrap_or (and_then a as_array) nil)
      ≡ map_items mount_json (unwrap_or (and_then b as_array) nil)
mounts_same a b (inl e) =
    ap (λ (v : Option Json). map_items mount_json (unwrap_or (and_then v as_array) nil)) e
mounts_same a b (inr (xs, ys, e, f, h)) = rw (e, f) (map_items_same h)

pub health_same :
    (s t : Json)
    → SameState s t
    → option_map health_json (get_key s (text "Health"))
      ≡ option_map health_json (get_key t (text "Health"))
health_same s t same = elim same.health [
  | inl e ↦ ap (option_map health_json) e
  | inr (h, k, e, f, g) ↦ rw (e, f) (rw (at-key h k (text "Status") g))
]
