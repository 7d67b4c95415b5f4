-- ===== src/Podman/Provider.antt =====
-- `CliPodmanProvider`: an identifier is checked, podman is run, its answer is compacted.
use systemd_monitoring_mcp.Base.{
  ◌≡◌, refl, arith, ◌≤◌, ◌<◌, ◌⊎◌, true, false, List, [], ◌∷◌, some, Result, ok, err, ◌>>=◌, length,
  ltb, all_by, on_ok, Bool-cases, inl, inr,
}
use systemd_monitoring_mcp.Text.{Text, text, byte_len, is_empty}
use systemd_monitoring_mcp.Json.{Json}
use systemd_monitoring_mcp.Errors.{AppError}
use systemd_monitoring_mcp.Env.{PodmanProvider}
use systemd_monitoring_mcp.Podman.{
  Kind, container, pod, kind_argument, is_identifier_char, invalid_identifier, validate_identifier,
  max_output_bytes, Output, Outcome, timed_out, not_started, finished, PodmanHost, checked_output,
  is_oversized, run_podman,
}
use systemd_monitoring_mcp.Podman.Compact.{compact_container, compact_pod}

abbrev pub compact : Kind → Json → Result Json AppError
compact container raw = compact_container raw
compact pod raw = compact_pod raw

-- `podman container inspect …` and `podman pod inspect …`
abbrev pub arguments : Kind → Text → List Text
arguments kind identifier = kind_argument kind ∷ text "inspect" ∷ identifier ∷ []

-- `container_status` and `pod_status`
unfoldable pub inspect : PodmanHost → Kind → Text → Result Json AppError
inspect host kind identifier = do
  checked ← validate_identifier identifier kind
  raw ← run_podman host (arguments kind identifier) kind
  compact kind raw

unfoldable pub cli_podman_provider : PodmanHost → PodmanProvider
unfolding inspect
cli_podman_provider host = record {
  container_status = inspect host container;
  pod_status = inspect host pod;
}

abbrev pub IsIdentifier : Text → Type 0
IsIdentifier identifier =
    (is_empty identifier ≡ false)
    × (byte_len identifier ≤ 256)
    × (all_by is_identifier_char identifier ≡ true)

validate_identifier_sound :
    (identifier : Text) (kind : Kind) (u : Unit {0})
    → validate_identifier identifier kind ≡ ok u
    → IsIdentifier identifier
unfolding validate_identifier
validate_identifier_sound identifier kind u h = elim (Bool-cases (is_empty identifier)) [
  | inl e ↦ absurd (cc (rw (validate_identifier, e) at h))
  | inr e ↦ elim (Bool-cases (ltb 256 (byte_len identifier))) [
    | inl f ↦ absurd (cc (rw (validate_identifier, e, f) at h))
    | inr f ↦ elim (Bool-cases (all_by is_identifier_char identifier)) [
      | inl g ↦ (e, ground arith, g)
      | inr g ↦ absurd (cc (rw (validate_identifier, e, f, g) at h))
    ]
  ]
]

-- A run that ended well, within the limit of output
abbrev pub IsGoodRun : PodmanHost → List Text → Json → Output → Type 0
IsGoodRun host args raw output =
    (host.run args ≡ finished output)
    × (output.success ≡ true)
    × (length output.stdout ≤ max_output_bytes)
    × (host.from_slice output.stdout ≡ some raw)

checked_output_sound :
    (host : PodmanHost) (args : List Text) (kind : Kind) (raw : Json) (output : Output)
    → host.run args ≡ finished output
    → checked_output host output kind ≡ ok raw
    → IsGoodRun host args raw output
unfolding checked_output is_oversized
checked_output_sound host args kind raw output r h = ground arith

run_podman_sound :
    (host : PodmanHost) (args : List Text) (kind : Kind) (raw : Json) (o : Outcome)
    → host.run args ≡ o
    → run_podman host args kind ≡ ok raw
    → (output : Output) × IsGoodRun host args raw output
unfolding run_podman
run_podman_sound host args kind raw timed_out r h = absurd (cc (rw (run_podman, r) at h))
run_podman_sound host args kind raw (not_started missing message) r h =
    absurd (cc (rw (run_podman, r) at h))
run_podman_sound host args kind raw (finished output) r h =
    (output, checked_output_sound host args kind raw output r (rw (run_podman, r) at h))

-- An answer comes from one run of podman on the checked identifier, which succeeded within the limit of
-- output and printed JSON.
pub inspect_sound :
    (host : PodmanHost) (kind : Kind) (identifier : Text) (shown : Json)
    → inspect host kind identifier ≡ ok shown
    → IsIdentifier identifier
      × ((raw : Json) × (output : Output) × IsGoodRun host (arguments kind identifier) raw output
          × (compact kind raw ≡ ok shown))
unfolding inspect
inspect_sound host kind identifier shown h = on_ok (validate_identifier identifier kind) h λ u v h1.
    on_ok (run_podman host (arguments kind identifier) kind) h1 λ raw r h2.
      let (output, good) =
        run_podman_sound host (arguments kind identifier) kind raw
          (host.run (arguments kind identifier)) refl r in
      (validate_identifier_sound identifier kind u v, (raw, output, good, h2))

-- An identifier that is not well formed is refused before podman is run: the answer is the same error
-- on every host.
pub inspect_refused :
    (host : PodmanHost) (kind : Kind) (identifier : Text)
    → (is_empty identifier ≡ true)
      ⊎ (256 < byte_len identifier)
      ⊎ (all_by is_identifier_char identifier ≡ false)
    → inspect host kind identifier ≡ err (invalid_identifier kind)
unfolding inspect validate_identifier
inspect_refused host kind identifier h = ground (arith, h)
