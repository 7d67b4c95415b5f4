-- ===== src/Server/Negotiation.antt =====
-- When a client's protocol version is accepted, and what it is answered with.
use systemd_monitoring_mcp.Base.{
  ℕ, ◌≤◌, ◌≡◌, ◌∙◌, ◌⊎◌, inl, inr, ◌↔◌, Option, none, some, arith, ok, Option-cases,
}
use systemd_monitoring_mcp.Text.{Text}
use systemd_monitoring_mcp.Json.{Json}
use systemd_monitoring_mcp.Server.Version.{
  Kit, min_supported_protocol_version, fallback_protocol_version, parse_protocol_version_date,
  offered_version, fallback_for, negotiate_version, negotiate_protocol_version,
}

module _ (kit : Kit) (oldest : ℕ)
    (oldest_date : parse_protocol_version_date kit min_supported_protocol_version
      ≡ some oldest) where
  -- What may be answered to an offer.
  abbrev pub IsNegotiated : Text → Text → Type 0
  IsNegotiated offered version =
      (kit.known_version offered ≡ some version)
      ⊎ ((kit.known_version offered ≡ none)
          × (version ≡ fallback_protocol_version)
          × (date : ℕ) × (parse_protocol_version_date kit offered ≡ some date)
          × (oldest ≤ date))

  fallback_iff :
      (offered version : Text)
      → (fallback_for kit (some oldest) offered ≡ ok version) ↔ (
          (version ≡ fallback_protocol_version)
          × (date : ℕ) × (parse_protocol_version_date kit offered ≡ some date)
          × (oldest ≤ date))
  unfolding fallback_for
  fallback_iff offered version = elim (Option-cases (parse_protocol_version_date kit offered)) [
    | inl e ↦ (λ h. absurd (cc (rw e at h)), λ (_, date, known, _). absurd (cc (e, known)))
    | inr (date, e) ↦ (
      λ h. (ground (arith, rw e at h), date, e, ground (arith, rw e at h)),
      λ (same, other, known, late).
          let equal : date ≡ other = cc (e, known) in rw (e, same) (ground (arith, equal)),
    )
  ]

  negotiate_version-IsNegotiated :
      (offered version : Text)
      → negotiate_version kit offered ≡ ok version
      → IsNegotiated offered version
  unfolding negotiate_version
  negotiate_version-IsNegotiated offered version h =
      elim (Option-cases (kit.known_version offered)) [
        | inl e ↦
            let (same, date, known, late) =
              (fallback_iff offered version).0 (rw (e, negotiate_version, oldest_date) at h) in
            inr (e, same, date, known, late)
        | inr (v, e) ↦ inl (e ∙ ground (arith, rw (e, negotiate_version) at h))
      ]

  IsNegotiated-negotiate_version :
      (offered version : Text)
      → IsNegotiated offered version
      → negotiate_version kit offered ≡ ok version
  unfolding negotiate_version
  IsNegotiated-negotiate_version offered version (inl e) = rw (e, negotiate_version)
  IsNegotiated-negotiate_version offered version (inr (e, same, date, known, late)) =
      rw (e, negotiate_version, oldest_date)
        ((fallback_iff offered version).1 (same, date, known, late))

  -- An offer is accepted exactly if the kit knows it, and is then the answer, or if it is a date not
  -- before that of the oldest supported version, which has to be one itself, and then the fallback is.
  pub negotiate_iff :
      (params : Option Json) (version : Text)
      → (negotiate_protocol_version kit params ≡ ok version) ↔ (
          (offered : Text) × (offered_version kit params ≡ some offered)
          × IsNegotiated offered version)
  unfolding negotiate_protocol_version negotiate_version
  negotiate_iff params version = elim (Option-cases (offered_version kit params)) [
    | inl e ↦ (
      λ h. absurd (cc (rw (e, negotiate_protocol_version) at h)),
      λ (offered, given, _). absurd (cc (e, given)),
    )
    | inr (offered, e) ↦ (
      λ h. (
        offered,
        e,
        negotiate_version-IsNegotiated offered version (rw (e, negotiate_protocol_version) at h),
      ),
      λ (other, given, n).
          let equal : offered ≡ other = cc (e, given) in
          rw (e, negotiate_protocol_version)
            (IsNegotiated-negotiate_version offered version (rw equal n)),
    )
  ]
