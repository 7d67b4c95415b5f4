-- ===== src/Logs/Ranking.antt =====
-- The triage summary of `list_logs`: what it counts, and how it ranks the counts.
use mathlib.Core.List.{Perm}
use mathlib.Core.List.Perm
use systemd_monitoring_mcp.Base.{
  ℕ, ◌≤◌, ◌<◌, ◌≡◌, refl, ap, sym, subst, ◌⊎◌, ◌↔◌, inl, inr, arith, Ordering, compare, not_gt,
  true, Option, none, some, List, [], ◌∷◌, map, leb, take, filter_by, filter_map, unwrap_or,
  if◌then◌else◌, Bool-cases, Option-cases,
}
use systemd_monitoring_mcp.Base.Order.{
  IsOrder, compare-IsOrder, compare_by-IsOrder, descending-IsOrder, lexicographic-IsOrder,
}
use systemd_monitoring_mcp.Base.Sort.{sort_by, sort_by-perm, sort_by-IsSorted, IsSorted}
use systemd_monitoring_mcp.Base.Picked.{
  Picked, map-Picked, filter_map-Picked, IsFirst, take-sort_by,
}
use systemd_monitoring_mcp.Text.{Text, text, text_compare}
use systemd_monitoring_mcp.Text.Number.{parse_unsigned}
use systemd_monitoring_mcp.Text.Order.{text_compare-IsOrder}
use systemd_monitoring_mcp.Counts.{Counts, tally}
use systemd_monitoring_mcp.Counts.Laws.{IsTally, tally-IsTally}
use systemd_monitoring_mcp.Units.{JournalLogEntry}
use systemd_monitoring_mcp.Logs.Summary.{
  present, is_error, by_count, by_key, btree_map, build_log_summary,
}

by_count-IsOrder : IsOrder by_count
unfolding by_count
by_count-IsOrder =
    lexicographic-IsOrder _ _
      (descending-IsOrder (λ l r. compare l.1 r.1)
        (compare_by-IsOrder (λ (e : Text × ℕ). e.1) compare compare-IsOrder))
      (compare_by-IsOrder (λ (e : Text × ℕ). e.0) text_compare text_compare-IsOrder)

by_key-IsOrder : IsOrder by_key
by_key-IsOrder = compare_by-IsOrder (λ (e : Text × ℕ). e.0) text_compare text_compare-IsOrder

-- What the order by count says: the larger count first, then the smaller text.
abbrev pub ByCount : Text × ℕ → Text × ℕ → Type 0
ByCount l r = (r.1 < l.1) ⊎ ((l.1 ≡ r.1) × (not_gt (text_compare l.0 r.0) ≡ true))

by_count-ByCount : (l r : Text × ℕ) → not_gt (by_count l r) ≡ true → ByCount l r
unfolding by_count
by_count-ByCount l r h = ground arith

abbrev pub name_order : Text × ℕ → Text × ℕ → Ordering
name_order l r = text_compare l.0 r.0

-- An entry whose priority is a number up to 3
abbrev pub IsUrgent : JournalLogEntry → Type 0
IsUrgent e =
    (p : Text) × (n : ℕ) × (e.priority ≡ some p) × (parse_unsigned 255 p ≡ some n) × (n ≤ 3)

is_error-IsUrgent : (e : JournalLogEntry) → is_error e ≡ true → IsUrgent e
unfolding is_error
is_error-IsUrgent e h = elim (Option-cases e.priority) [
  | inl a ↦ absurd (cc (rw a at h))
  | inr (p, a) ↦ elim (Option-cases (parse_unsigned 255 p)) [
    | inl b ↦ absurd (cc (rw (a, b) at h))
    | inr (n, b) ↦
        let small : leb n 3 ≡ true = rw (a, b) at h in (p, n, a, b, ground (arith, small))
  ]
]

IsUrgent-is_error : (e : JournalLogEntry) → IsUrgent e → is_error e ≡ true
unfolding is_error
IsUrgent-is_error e (p, n, a, b, c) = rw (a, b) (ground (arith, c))

present-filter_map :
    (f : JournalLogEntry → Option Text) (entries : List JournalLogEntry)
    → present (map f entries) ≡ filter_map f entries
unfolding present
present-filter_map f [] = refl
present-filter_map f (e ∷ es) = elim (Option-cases (f e)) [
  | inl h ↦ rw (present, filter_map, h) (present-filter_map f es)
  | inr (s, h) ↦ rw (present, filter_map, h) (ap (◌∷◌ s) (present-filter_map f es))
]

present-Picked :
    (f : JournalLogEntry → Option Text) (entries : List JournalLogEntry)
    → Picked (λ e s. f e ≡ some s) entries (present (map f entries))
present-Picked f entries =
    subst (Picked (λ e s. f e ≡ some s) entries) (sym (present-filter_map f entries))
      (filter_map-Picked f (λ e s. f e ≡ some s) (λ e s. (λ h. h, λ h. h)) entries)

-- The unit of an error, where it has one
abbrev pub ErrorOf : JournalLogEntry → Text → Type 0
ErrorOf e s = IsUrgent e × (e.unit ≡ some s)

abbrev error_of : JournalLogEntry → Option Text
error_of e = if is_error e then e.unit else none

errors_made :
    (entries : List JournalLogEntry)
    → present (map (λ e. e.unit) (filter_by is_error entries)) ≡ filter_map error_of entries
unfolding present
errors_made [] = refl
errors_made (e ∷ es) = elim (Bool-cases (is_error e)) [
  | inr no_error ↦ rw (filter_map, no_error) (errors_made es)
  | inl error ↦ elim (Option-cases e.unit) [
    | inl a ↦ rw (filter_map, error, present, a) (errors_made es)
    | inr (s, a) ↦ rw (filter_map, error, present, a) (ap (◌∷◌ s) (errors_made es))
  ]
]

error_iff : (e : JournalLogEntry) (s : Text) → (error_of e ≡ some s) ↔ ErrorOf e s
error_iff e s = elim (Bool-cases (is_error e)) [
  | inl error ↦ (λ h. (is_error-IsUrgent e error, rw error at h), λ h. rw error h.1)
  | inr no_error ↦ (
    λ h. absurd (cc (rw no_error at h)),
    λ h. absurd (cc (rw no_error at (IsUrgent-is_error e h.0))),
  )
]

errors-Picked :
    (entries : List JournalLogEntry)
    → Picked ErrorOf entries (present (map (λ e. e.unit) (filter_by is_error entries)))
errors-Picked entries =
    subst (Picked ErrorOf entries) (sym (errors_made entries))
      (filter_map-Picked error_of ErrorOf error_iff entries)

-- The priority under which an entry is counted
abbrev pub PriorityOf : JournalLogEntry → Text → Type 0
PriorityOf e p = (e.priority ≡ some p) ⊎ ((e.priority ≡ none) × (p ≡ text "unknown"))

priority_or_unknown :
    (p : Option Text)
    → (p ≡ some (unwrap_or p (text "unknown")))
      ⊎ ((p ≡ none) × (unwrap_or p (text "unknown") ≡ text "unknown"))
priority_or_unknown none = inr (refl, refl)
priority_or_unknown (some p) = inl refl

-- The ten keys that occur most often, with their counts, by count and then by text
abbrev pub IsTop : List Text → Counts → Type 0
IsTop keys most = (counts : Counts) × IsTally keys counts × IsFirst by_count 10 counts most

most_frequent : (keys : List Text) → IsTop keys (take 10 (sort_by by_count (tally keys)))
most_frequent keys =
    (tally keys, tally-IsTally keys, take-sort_by by_count 10 (tally keys) by_count-IsOrder)

-- Ranked is by count, the largest first, and then by text. In the summary the most frequent messages
-- are the first ten of the counts of all messages that are there, so ranked; the hotspots are all the
-- counts of the units of entries whose priority is a number up to 3, so ranked; the priorities, those
-- of entries without one under "unknown", are all there, in order; and the units shown are the first
-- ten by count, in order of their names.
pub build_log_summary_exact :
    (entries : List JournalLogEntry)
    → ((l r : Text × ℕ) → not_gt (by_count l r) ≡ true → ByCount l r)
      × ((messages : List Text) × Picked (λ e m. e.message ≡ some m) entries messages
          × IsTop messages (build_log_summary entries).top_messages)
      × ((errors : List Text) × Picked ErrorOf entries errors
          × ((counts : Counts) × IsTally errors counts
              × Perm (build_log_summary entries).error_hotspots counts
              × IsSorted by_count (build_log_summary entries).error_hotspots))
      × ((priorities : List Text) × Picked PriorityOf entries priorities
          × ((counts : Counts) × IsTally priorities counts
              × Perm (build_log_summary entries).counts_by_priority counts
              × IsSorted name_order (build_log_summary entries).counts_by_priority))
      × ((units : List Text) × Picked (λ e u. e.unit ≡ some u) entries units
          × ((shown : Counts) × IsTop units shown
              × Perm (build_log_summary entries).counts_by_unit shown
              × IsSorted name_order (build_log_summary entries).counts_by_unit))
unfolding build_log_summary btree_map
build_log_summary_exact entries =
    let messages = present (map (λ e. e.message) entries) in
    let units = present (map (λ e. e.unit) entries) in
    let errors = present (map (λ e. e.unit) (filter_by is_error entries)) in
    let priorities = map (λ e. unwrap_or e.priority (text "unknown")) entries in
    let top = take 10 (sort_by by_count (tally units)) in
    let ranked = sort_by by_key (tally priorities) in
    (
      by_count-ByCount,
      (messages, present-Picked (λ e. e.message) entries, most_frequent messages),
      (
        errors,
        errors-Picked entries,
        (
          tally errors,
          tally-IsTally errors,
          sort_by-perm by_count (tally errors),
          sort_by-IsSorted by_count by_count-IsOrder (tally errors),
        ),
      ),
      (
        priorities,
        map-Picked (λ e. unwrap_or e.priority (text "unknown")) PriorityOf
            (λ e. priority_or_unknown e.priority) entries,
        (
          tally priorities,
          tally-IsTally priorities,
          Perm.trans (sort_by-perm by_key ranked) (sort_by-perm by_key (tally priorities)),
          sort_by-IsSorted by_key by_key-IsOrder ranked,
        ),
      ),
      (
        units,
        present-Picked (λ e. e.unit) entries,
        (
          top,
          most_frequent units,
          sort_by-perm by_key top,
          sort_by-IsSorted by_key by_key-IsOrder top,
        ),
      ),
    )
