-- ===== src/Podman/Shown.antt =====
-- What a container's answer depends on.
use systemd_monitoring_mcp.Base.{
  ◌≡◌, refl, ap, sym, ◌∙◌, true, List, [], ◌∷◌, unwrap_or, and_then, Option-cases, inl, inr,
}
use systemd_monitoring_mcp.Text.{Text, text, text_eq, one_of}
use systemd_monitoring_mcp.Json.{Json, null, array, object, Items, cons, Fields, get, get_key}
use systemd_monitoring_mcp.Podman.{first_object}
use systemd_monitoring_mcp.Podman.Alike.{
  SameCommand, SameHealth, SameMountsAt, SameState, state_keys, sanitize_argv_same, at-key,
  compact_health_config_same, mounts_same, health_same,
}
use systemd_monitoring_mcp.Podman.Compact.{
  at, pointer, map_items, mount_json, array_at, container_json, compact_container,
}

-- The fields of the raw answer that are read, beside its state, its mounts, its
-- configuration and its host configuration
abbrev pub container_keys : List Text
container_keys =
    text "Id"
    ∷ text "Name"
    ∷ text "Created"
    ∷ text "CreatedAt"
    ∷ text "RestartCount"
    ∷ text "Image"
    ∷ text "ImageDigest"
    ∷ text "Pod"
    ∷ text "PodId"
    ∷ []

-- A part of the raw answer, null where there is none
abbrev pub part : Fields → Text → Json
part fields key = unwrap_or (get fields key) null

-- Two raw answers that agree on all that is shown: the fields above, image and user of the
-- configuration, whether the root is read-only, and the fields of the state and of each mount that are
-- shown; the command and the test of the health configuration may differ in their secrets.
pub record AgreeOnShown (fs gs : Fields) : Type 0 where
  pub fields : (key : Text) → one_of key container_keys ≡ true → get fs key ≡ get gs key
  pub state : SameState (part fs (text "State")) (part gs (text "State"))
  pub mounts : SameMountsAt (get fs (text "Mounts")) (get gs (text "Mounts"))
  pub image :
      get_key (part fs (text "Config")) (text "Image")
      ≡ get_key (part gs (text "Config")) (text "Image")
  pub user :
      get_key (part fs (text "Config")) (text "User")
      ≡ get_key (part gs (text "Config")) (text "User")
  pub command :
      SameCommand
        (get_key (part fs (text "Config")) (text "Cmd"))
        (get_key (part gs (text "Config")) (text "Cmd"))
  pub health : SameHealth (part fs (text "Config")) (part gs (text "Config"))
  pub read_only :
      get_key (part fs (text "HostConfig")) (text "ReadonlyRootfs")
      ≡ get_key (part gs (text "HostConfig")) (text "ReadonlyRootfs")

at_same :
    (fs gs : Fields) (key : Text) (tokens : List Text)
    → get fs key ≡ get gs key
    → at (object fs) (key ∷ tokens) ≡ at (object gs) (key ∷ tokens)
unfolding at pointer get_key
at_same fs gs key tokens h = ap (λ v. unwrap_or (and_then v (λ inner. pointer inner tokens)) null) h

key_same :
    (fs gs : Fields) (key : Text)
    → get fs key ≡ get gs key
    → get_key (object fs) key ≡ get_key (object gs) key
unfolding get_key
key_same fs gs key h = h

at-part : (fs : Fields) (key : Text) → at (object fs) (key ∷ []) ≡ part fs key
unfolding at pointer get_key
at-part fs key = elim (Option-cases (get fs key)) [ inl e ↦ rw e | inr (v, e) ↦ rw e ]

mounts_at :
    (fs gs : Fields)
    → SameMountsAt (get fs (text "Mounts")) (get gs (text "Mounts"))
    → map_items mount_json (array_at (object fs) (text "Mounts"))
      ≡ map_items mount_json (array_at (object gs) (text "Mounts"))
unfolding get_key
mounts_at fs gs h = mounts_same (get fs (text "Mounts")) (get gs (text "Mounts")) h

at-within :
    (fs : Fields) (key inner : Text)
    → at (object fs) (key ∷ inner ∷ []) ≡ at (part fs key) (inner ∷ [])
unfolding at pointer get_key
at-within fs key inner = elim (Option-cases (get fs key)) [ inl e ↦ rw e | inr (v, e) ↦ rw e ]

-- Two containers that agree on the shown fields are shown alike: environment, labels, annotations,
-- the sources of mounts, the log of the health checks and every other part of podman's answer, and
-- the secrets of the command and of the health test, stay hidden.
pub compact_container_hides :
    (fs gs : Fields)
    → AgreeOnShown fs gs
    → compact_container (object fs) ≡ compact_container (object gs)
unfolding compact_container first_object container_json one_of text_eq
compact_container_hides fs gs same =
    let value = λ (k : Text) (h : one_of k container_keys ≡ true) (tokens : List Text).
      at_same fs gs k tokens (same.fields k h) in
    let key =
      λ (k : Text) (h : one_of k container_keys ≡ true). key_same fs gs k (same.fields k h) in
    let state = λ (k : Text) (h : one_of k state_keys ≡ true).
      at-key (part fs (text "State")) (part gs (text "State")) k (same.state.fields k h) in
    rw (
      value (text "Id") refl [],
      value (text "Name") refl [],
      at-within fs (text "State") (text "UID"),
      at-within gs (text "State") (text "UID"),
      at-within fs (text "State") (text "GID"),
      at-within gs (text "State") (text "GID"),
      at-within fs (text "State") (text "HostUID"),
      at-within gs (text "State") (text "HostUID"),
      at-within fs (text "State") (text "HostGID"),
      at-within gs (text "State") (text "HostGID"),
      at-part fs (text "State"),
      at-part gs (text "State"),
      state (text "Status") refl,
      state (text "Running") refl,
      state (text "ExitCode") refl,
      state (text "Error") refl,
      state (text "StartedAt") refl,
      state (text "FinishedAt") refl,
      state (text "UID") refl,
      state (text "GID") refl,
      state (text "HostUID") refl,
      state (text "HostGID") refl,
      health_same (part fs (text "State")) (part gs (text "State")) same.state,
      key (text "Created") refl,
      key (text "CreatedAt") refl,
      key (text "RestartCount") refl,
      key (text "Image") refl,
      key (text "ImageDigest") refl,
      mounts_at fs gs same.mounts,
      key (text "Pod") refl,
      key (text "PodId") refl,
      at-part fs (text "Config"),
      at-part gs (text "Config"),
      at-part fs (text "HostConfig"),
      at-part gs (text "HostConfig"),
      same.image,
      same.user,
      sanitize_argv_same _ _ same.command,
      compact_health_config_same _ _ same.health,
      same.read_only,
    )

-- What podman prints for one container: its object, or as podman does, an array that it comes first in.
pub data Describes (fs : Fields) : Json → Type 0 where
  bare : Describes fs (object fs)
  listed : {rest : Items} → Describes fs (array (cons (object fs) rest))

Describes-compact :
    (fs : Fields) (raw : Json)
    → Describes fs raw
    → compact_container raw ≡ compact_container (object fs)
unfolding compact_container first_object
Describes-compact fs _ bare = refl
Describes-compact fs _ listed = refl

-- So it is with all that podman prints of the two.
pub described_hides :
    (fs gs : Fields) (raw other : Json)
    → Describes fs raw
    → Describes gs other
    → AgreeOnShown fs gs
    → compact_container raw ≡ compact_container other
described_hides fs gs raw other d e same =
    Describes-compact fs raw d
    ∙ compact_container_hides fs gs same
    ∙ sym (Describes-compact gs other e)
