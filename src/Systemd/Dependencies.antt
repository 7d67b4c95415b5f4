-- ===== src/Systemd/Dependencies.antt =====
-- Which direct dependencies of a unit have failed.
use systemd_monitoring_mcp.Base.{
  ◌≡◌, refl, ap, ap₂, ◌∙◌, arith, Ordering, Bool, true, not, ◌&&◌, ◌||◌, List, [], ◌∷◌, ◌++◌, map,
  Option, none, some, if◌then◌else◌, unwrap_or, option_map, or_else, filter_by, any_by, All, last?,
  sym, subst, All-joined, compare_by, lexicographic, Bool-cases, Option-cases, inl, inr,
}
use systemd_monitoring_mcp.Base.Sort.{sort_by, sort_by-IsSorted, sort_by-All, any_by-sort_by}
use systemd_monitoring_mcp.Base.Order.{compare_by-IsOrder, lexicographic-IsOrder, IsOrder}
use systemd_monitoring_mcp.Base.Dedup.{
  dedup_by, IsStrict, dedup_by-IsStrict, dedup_by-All, any_by-dedup_by, any_by-append,
}
use systemd_monitoring_mcp.Text.{Text, text, text_eq, text_compare, one_of, eq_ignore_ascii_case}
use systemd_monitoring_mcp.Text.Laws.{text_eq_refl, text_eq→≡}
use systemd_monitoring_mcp.Text.Order.{text_compare-IsOrder, text_compare_eq}
use systemd_monitoring_mcp.Systemd.Scopes.{RawUnit}

pub record FailedDependency : Type 0 where
  pub unit : Text
  pub relationship : Text
  pub load_state : Text
  pub active_state : Text
  pub sub_state : Text
  pub result : Option Text

-- `collect` into a map and `get`: of the rows with one name, the last is kept.
unfoldable pub row_named : List RawUnit → Text → Option RawUnit
unfolding text_eq
row_named [] name = none
row_named (row ∷ rows) name =
    or_else (row_named rows name) (if text_eq row.name name then some row else none)

abbrev is_failed_row : RawUnit → Bool
is_failed_row row =
    eq_ignore_ascii_case row.active_state (text "failed")
    || not (eq_ignore_ascii_case row.load_state (text "loaded"))

unfoldable pub is_failed : List RawUnit → Text → Bool
unfolding eq_ignore_ascii_case row_named
is_failed rows name = unwrap_or (option_map is_failed_row (row_named rows name)) true

unfoldable pub failed_dependency : List RawUnit → Text → Text → FailedDependency
unfolding row_named
failed_dependency rows relationship name =
    let dependency = row_named rows name in
    record {
      unit = name;
      relationship = relationship;
      load_state =
          unwrap_or (option_map (λ (row : RawUnit). row.load_state) dependency) (text "not-found");
      active_state =
          unwrap_or (option_map (λ (row : RawUnit). row.active_state) dependency) (text "inactive");
      sub_state =
          unwrap_or (option_map (λ (row : RawUnit). row.sub_state) dependency) (text "dead");
      result = none;
    }

-- The failed ones of one relationship
abbrev pub failed_of : List RawUnit → Text → List Text → List FailedDependency
failed_of rows relationship dependencies =
    map (failed_dependency rows relationship) (filter_by (is_failed rows) dependencies)

abbrev pub by_dependency : FailedDependency → FailedDependency → Ordering
by_dependency =
    lexicographic (compare_by (λ (d : FailedDependency). d.unit) text_compare)
      (compare_by (λ (d : FailedDependency). d.relationship) text_compare)

abbrev pub same_dependency : FailedDependency → FailedDependency → Bool
same_dependency left right =
    text_eq left.unit right.unit && text_eq left.relationship right.relationship

unfoldable pub classify_failed_dependencies :
    List Text → List Text → List RawUnit → List FailedDependency
unfolding is_failed failed_dependency sort_by dedup_by text_compare text_eq
classify_failed_dependencies requires wants rows = dedup_by same_dependency (
    sort_by by_dependency
      (failed_of rows (text "requires") requires ++ failed_of rows (text "wants") wants))

-- A row of the answer for this unit and relationship
abbrev pub is_about : Text → Text → FailedDependency → Bool
is_about unit relationship d = text_eq unit d.unit && text_eq relationship d.relationship

is_about_same :
    (unit relationship : Text) (a b : FailedDependency)
    → same_dependency a b ≡ true
    → is_about unit relationship a ≡ is_about unit relationship b
is_about_same unit relationship a b h =
    let units : text_eq a.unit b.unit ≡ true = ground arith in
    let relationships : text_eq a.relationship b.relationship ≡ true = ground arith in
    let e : a.unit ≡ b.unit = text_eq→≡ a.unit b.unit units in
    let f : a.relationship ≡ b.relationship =
      text_eq→≡ a.relationship b.relationship relationships in
    ap₂ (λ u r. text_eq unit u && text_eq relationship r) e f

equal_same : (a b : FailedDependency) → by_dependency a b ≡ Ordering.eq → same_dependency b a ≡ true
equal_same a b h =
    let units : text_compare a.unit b.unit ≡ Ordering.eq = ground arith in
    let relationships : text_compare a.relationship b.relationship ≡ Ordering.eq = ground arith in
    let e : a.unit ≡ b.unit = text_compare_eq a.unit b.unit units in
    let f : a.relationship ≡ b.relationship =
      text_compare_eq a.relationship b.relationship relationships in
    rw (e, f, text_eq_refl b.unit, text_eq_refl b.relationship)

is_failed_same :
    (rows : List RawUnit) (s t : Text) → text_eq s t ≡ true → is_failed rows s ≡ is_failed rows t
is_failed_same rows s t h = ap (is_failed rows) (text_eq→≡ s t h)

any_by-failed_of :
    (rows : List RawUnit) (kind relationship unit : Text) (dependencies : List Text)
    → any_by (is_about unit relationship) (failed_of rows kind dependencies)
      ≡ text_eq relationship kind && (one_of unit dependencies && is_failed rows unit)
unfolding one_of failed_dependency
any_by-failed_of rows kind relationship unit [] = ground arith
any_by-failed_of rows kind relationship unit (t ∷ ts) =
    ground (arith, is_failed_same rows unit t, any_by-failed_of rows kind relationship unit ts)

-- A missing row has failed, and so has one that is failed or not loaded.
abbrev pub has_failed : Option RawUnit → Bool
has_failed none = true
has_failed (some row) =
    if eq_ignore_ascii_case row.load_state (text "loaded")
    then eq_ignore_ascii_case row.active_state (text "failed")
    else true

is_failed-has_failed :
    (rows : List RawUnit) (name : Text) → is_failed rows name ≡ has_failed (row_named rows name)
unfolding is_failed
is_failed-has_failed rows name = elim (Option-cases (row_named rows name)) [
  | inl e ↦ rw (is_failed, e)
  | inr (row, e) ↦ rw (is_failed, e) (ground arith)
]

by_dependency-IsOrder : IsOrder by_dependency
by_dependency-IsOrder =
    lexicographic-IsOrder (compare_by (λ (d : FailedDependency). d.unit) text_compare)
      (compare_by (λ (d : FailedDependency). d.relationship) text_compare)
      (compare_by-IsOrder (λ (d : FailedDependency). d.unit) text_compare text_compare-IsOrder)
      (compare_by-IsOrder (λ (d : FailedDependency). d.relationship) text_compare
        text_compare-IsOrder)

-- The last row of a name, if there is one
abbrev pub last_row : List RawUnit → Text → Option RawUnit
last_row rows name = last? (filter_by (λ (row : RawUnit). text_eq row.name name) rows)

last_found :
    (x : RawUnit) (xs : List RawUnit) (r : Option RawUnit)
    → or_else (last? (x ∷ xs)) r ≡ last? (x ∷ xs)
last_found x [] r = refl
last_found x (y ∷ ys) r = last_found y ys r

last-cons : (x : RawUnit) (xs : List RawUnit) → last? (x ∷ xs) ≡ or_else (last? xs) (some x)
last-cons x [] = refl
last-cons x (y ∷ ys) = sym (last_found y ys (some x))

or_else-none : (r : Option RawUnit) → or_else r none ≡ r
or_else-none none = refl
or_else-none (some row) = refl

row_named-last_row : (rows : List RawUnit) (name : Text) → row_named rows name ≡ last_row rows name
unfolding row_named
row_named-last_row [] name = refl
row_named-last_row (row ∷ rows) name = elim (Bool-cases (text_eq row.name name)) [
  | inl e ↦
      rw (row_named, e, row_named-last_row rows name)
        (sym (last-cons row (filter_by (λ (r : RawUnit). text_eq r.name name) rows)))
  | inr e ↦ rw (row_named, e, row_named-last_row rows name) (or_else-none (last_row rows name))
]

-- What is shown of a row, or where there is none
abbrev pub ShowsRow : Option RawUnit → FailedDependency → Type 0
ShowsRow none d =
    (d.load_state ≡ text "not-found")
    × (d.active_state ≡ text "inactive")
    × (d.sub_state ≡ text "dead")
    × (d.result ≡ none)
ShowsRow (some row) d =
    (d.load_state ≡ row.load_state)
    × (d.active_state ≡ row.active_state)
    × (d.sub_state ≡ row.sub_state)
    × (d.result ≡ none)

-- A row of the answer shows the states of the last row of its unit.
abbrev pub IsMade : List RawUnit → FailedDependency → Type 0
IsMade rows d = ShowsRow (last_row rows d.unit) d

failed_dependency-ShowsRow :
    (rows : List RawUnit) (kind name : Text)
    → ShowsRow (row_named rows name) (failed_dependency rows kind name)
unfolding failed_dependency
failed_dependency-ShowsRow rows kind name = elim (Option-cases (row_named rows name)) [
  | inl e ↦ rw e (refl, refl, refl, refl)
  | inr (row, e) ↦ rw e (refl, refl, refl, refl)
]

failed_dependency-IsMade :
    (rows : List RawUnit) (kind name : Text) → IsMade rows (failed_dependency rows kind name)
unfolding failed_dependency
failed_dependency-IsMade rows kind name =
    subst (λ (r : Option RawUnit). ShowsRow r (failed_dependency rows kind name))
      (row_named-last_row rows name) (failed_dependency-ShowsRow rows kind name)

failed_of-IsMade :
    (rows : List RawUnit) (kind : Text) (dependencies : List Text)
    → All (IsMade rows) (failed_of rows kind dependencies)
unfolding failed_dependency
failed_of-IsMade rows kind [] = tt
failed_of-IsMade rows kind (t ∷ ts) = elim (Bool-cases (is_failed rows t)) [
  | inl e ↦ rw e (failed_dependency-IsMade rows kind t, failed_of-IsMade rows kind ts)
  | inr e ↦ rw e (failed_of-IsMade rows kind ts)
]

-- The failed dependencies are sorted by unit and then by relationship, no pair of these twice. A unit
-- is among them as required, or as wanted, exactly if it is so named and the last row of its name has
-- failed or is not loaded, or there is none; each shows the states of that row, or those of a unit that
-- is not there.
pub classify_failed_dependencies_exact :
    (requires wants : List Text) (rows : List RawUnit)
    → let failed = classify_failed_dependencies requires wants rows in
      IsStrict by_dependency failed
      × All (IsMade rows) failed
      × ((unit relationship : Text)
          → any_by (is_about unit relationship) failed
            ≡ (text_eq relationship (text "requires")
                && (one_of unit requires && has_failed (last_row rows unit)))
              || (text_eq relationship (text "wants")
                  && (one_of unit wants && has_failed (last_row rows unit))))
unfolding classify_failed_dependencies
classify_failed_dependencies_exact requires wants rows =
    let required = failed_of rows (text "requires") requires in
    let wanted = failed_of rows (text "wants") wants in
    let sorted = sort_by by_dependency (required ++ wanted) in
    (
      dedup_by-IsStrict by_dependency by_dependency-IsOrder same_dependency equal_same sorted
          (sort_by-IsSorted by_dependency by_dependency-IsOrder (required ++ wanted)),
      dedup_by-All (IsMade rows) same_dependency sorted (
          sort_by-All (IsMade rows) by_dependency (required ++ wanted) (
            All-joined (IsMade rows) wanted (failed_of-IsMade rows (text "wants") wants) required
              (failed_of-IsMade rows (text "requires") requires))),
      λ unit relationship.
          any_by-dedup_by (is_about unit relationship) same_dependency
            (is_about_same unit relationship) sorted
          ∙ any_by-sort_by (is_about unit relationship) by_dependency (required ++ wanted)
          ∙ any_by-append (is_about unit relationship) required wanted
          ∙ ap₂ ◌||◌ (any_by-failed_of rows (text "requires") relationship unit requires)
              (any_by-failed_of rows (text "wants") relationship unit wants)
          ∙ ap
              (λ failed.
                (text_eq relationship (text "requires") && (one_of unit requires && failed))
                || (text_eq relationship (text "wants") && (one_of unit wants && failed)))
              (is_failed-has_failed rows unit ∙ ap has_failed (row_named-last_row rows unit)),
    )
