-- ===== src/Base/Maps.antt =====
-- `HashMap`: the entries in the order that they went in, of which the last of a key counts.
use mathlib.Core.Bool.{Bool, true, not}
use mathlib.Core.Option.{Option, none, some}
use mathlib.Core.List.{List, [], ◌∷◌}
use mathlib.Core.Logic.{inl, inr}
use mathlib.Core.Path.{◌≡◌, ap, subst, ◌∙◌}
use systemd_monitoring_mcp.Base.Tests.{if◌then◌else◌, or_else, Option-cases, Bool-cases}
use systemd_monitoring_mcp.Base.Lists.{filter_by, All}

module _ {ℓ κ} {K : Type ℓ} {V : Type κ} (eq : K → K → Bool) where
  -- `get`
  unfoldable pub get_last : List (K × V) → K → Option V
  get_last [] k = none
  get_last ((j, v) ∷ entries) k = or_else (get_last entries k) (if eq j k then some v else none)

  -- `remove`
  abbrev pub remove_key : List (K × V) → K → List (K × V)
  remove_key entries k = filter_by (λ entry. not (eq entry.0 k)) entries

  -- What holds of every entry holds of the one that is found, and of those that are left.
  pub get_last-All {μ} :
      (P : K × V → Type μ) (entries : List (K × V)) (k : K) (v : V)
      → All P entries
      → get_last entries k ≡ some v
      → (j : K) × (eq j k ≡ true) × P (j, v)
  unfolding get_last
  get_last-All P [] k v h e = absurd (cc e)
  get_last-All P ((j, w) ∷ entries) k v h e = elim (Option-cases (get_last entries k)) [
    | inr (u, f) ↦
        let same : u ≡ v = cc (rw (get_last, f) at e) in
        get_last-All P entries k v h.1 (f ∙ ap some same)
    | inl f ↦ elim (Bool-cases (eq j k)) [
      | inl g ↦
          let same : w ≡ v = cc (rw (get_last, f, g) at e) in (j, g, subst (λ x. P (j, x)) same h.0)
      | inr g ↦ absurd (cc (rw (get_last, f, g) at e))
    ]
  ]
