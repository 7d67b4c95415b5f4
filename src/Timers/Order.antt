-- ===== src/Timers/Order.antt =====
-- The order of the rows of `list_timers`.
use mathlib.Core.List.{Perm}
use systemd_monitoring_mcp.Base.{
  ◌≡◌, Ordering, Bool, true, not, ◌&&◌, Option, none, some, List, arith, if◌then◌else◌, reversed,
  descending, compare_by, then_with, is_some, not_gt, compare_bool,
}
use systemd_monitoring_mcp.Base.Int.{ℤ, compare_ℤ}
use systemd_monitoring_mcp.Base.Order.{
  IsOrder, Le, compare_by-IsOrder, lexicographic-IsOrder, if-IsOrder, reversed-IsOrder,
}
use systemd_monitoring_mcp.Base.Sort.{
  IsSorted, sort_by, sort_by-perm, sort_by-IsSorted, IsSorted-imp,
}
use systemd_monitoring_mcp.Text.{Text, text, text_eq, text_compare, eq_ignore_ascii_case}
use systemd_monitoring_mcp.Text.Order.{text_compare-IsOrder}
use systemd_monitoring_mcp.Timers.Items.{TimerItem}

unfoldable pub compare_optional_i64_none_last : Option ℤ → Option ℤ → Bool → Ordering
compare_optional_i64_none_last none none descending = Ordering.eq
compare_optional_i64_none_last none (some right) descending = Ordering.gt
compare_optional_i64_none_last (some left) none descending = Ordering.lt
compare_optional_i64_none_last (some left) (some right) descending =
    if descending then compare_ℤ right left else compare_ℤ left right

abbrev pub by_unit : TimerItem → TimerItem → Ordering
by_unit left right = text_compare left.unit right.unit

-- The `match` on the sort key
unfoldable pub compare_key : Text → Bool → TimerItem → TimerItem → Ordering
unfolding text_eq
compare_key sort is_desc left right =
    if text_eq sort (text "next")
    then then_with
        (compare_optional_i64_none_last left.time_until_next_sec right.time_until_next_sec is_desc)
        (by_unit left right)
    else if text_eq sort (text "last")
    then then_with
        (compare_optional_i64_none_last left.time_since_last_sec right.time_since_last_sec is_desc)
        (by_unit left right)
    else if text_eq sort (text "state")
    then then_with (text_compare left.active_state right.active_state) (by_unit left right)
    else by_unit left right

-- The comparison that is sorted by
unfoldable pub compare_timers : Text → Bool → TimerItem → TimerItem → Ordering
compare_timers sort is_desc left right =
    let cmp = compare_key sort is_desc left right in
    if is_desc && not (text_eq sort (text "next")) && not (text_eq sort (text "last"))
    then reversed cmp
    else cmp

unfoldable pub sort_timer_items : List TimerItem → Text → Text → List TimerItem
unfolding sort_by compare_timers
sort_timer_items items sort order =
    sort_by (compare_timers sort (eq_ignore_ascii_case order (text "desc"))) items

none_last-IsOrder : (is_desc : Bool) → IsOrder (λ a b. compare_optional_i64_none_last a b is_desc)
unfolding compare_optional_i64_none_last
none_last-IsOrder is_desc = record { flip = λ a b. ground arith; trans = λ a b c p q. ground arith }

by_unit-IsOrder : IsOrder by_unit
by_unit-IsOrder = compare_by-IsOrder (λ (t : TimerItem). t.unit) text_compare text_compare-IsOrder

optional_then_unit-IsOrder :
    (key : TimerItem → Option ℤ) (is_desc : Bool)
    → IsOrder
        (λ a b. then_with (compare_optional_i64_none_last (key a) (key b) is_desc) (by_unit a b))
optional_then_unit-IsOrder key is_desc =
    lexicographic-IsOrder (λ a b. compare_optional_i64_none_last (key a) (key b) is_desc) by_unit
      (compare_by-IsOrder key (λ a b. compare_optional_i64_none_last a b is_desc)
        (none_last-IsOrder is_desc))
      by_unit-IsOrder

compare_key-IsOrder : (sort : Text) (is_desc : Bool) → IsOrder (compare_key sort is_desc)
unfolding compare_key
compare_key-IsOrder sort is_desc =
    if-IsOrder (text_eq sort (text "next")) _ _
      (optional_then_unit-IsOrder (λ t. t.time_until_next_sec) is_desc)
      (if-IsOrder (text_eq sort (text "last")) _ _
        (optional_then_unit-IsOrder (λ t. t.time_since_last_sec) is_desc)
        (if-IsOrder (text_eq sort (text "state")) _ _
          (lexicographic-IsOrder (compare_by (λ (t : TimerItem). t.active_state) text_compare)
            by_unit
            (compare_by-IsOrder (λ (t : TimerItem). t.active_state) text_compare
              text_compare-IsOrder)
            by_unit-IsOrder)
          by_unit-IsOrder))

pub compare_timers-IsOrder : (sort : Text) (is_desc : Bool) → IsOrder (compare_timers sort is_desc)
unfolding compare_timers
compare_timers-IsOrder sort is_desc =
    if-IsOrder (is_desc && not (text_eq sort (text "next")) && not (text_eq sort (text "last"))) _ _
      (reversed-IsOrder (compare_key sort is_desc) (compare_key-IsOrder sort is_desc))
      (compare_key-IsOrder sort is_desc)

-- Whatever the sort key and the order, sorting keeps every row, and the result is in the order of
-- the comparison.
pub sort_timer_items-IsSorted :
    (items : List TimerItem) (sort order : Text)
    → Perm (sort_timer_items items sort order) items
      × IsSorted
          (compare_timers sort (eq_ignore_ascii_case order (text "desc")))
          (sort_timer_items items sort order)
unfolding sort_timer_items
sort_timer_items-IsSorted items sort order = (
  sort_by-perm _ items,
  sort_by-IsSorted _ (compare_timers-IsOrder sort (eq_ignore_ascii_case order (text "desc"))) items,
)

-- Rows with a value before rows without.
abbrev pub known_first : (TimerItem → Option ℤ) → TimerItem → TimerItem → Ordering
known_first key a b = compare_bool (not (is_some (key a))) (not (is_some (key b)))

none_last :
    (left right : Option ℤ) (is_desc : Bool) (units : Ordering)
    → not_gt (then_with (compare_optional_i64_none_last left right is_desc) units) ≡ true
    → not_gt (compare_bool (not (is_some left)) (not (is_some right))) ≡ true
unfolding compare_optional_i64_none_last
none_last left right is_desc units h = ground arith

next_none_last :
    (is_desc : Bool) (a b : TimerItem)
    → Le (compare_timers (text "next") is_desc) a b
    → Le (known_first (λ t. t.time_until_next_sec)) a b
unfolding compare_timers compare_key
next_none_last is_desc a b h =
    none_last a.time_until_next_sec b.time_until_next_sec is_desc (by_unit a b) (ground arith)

last_none_last :
    (is_desc : Bool) (a b : TimerItem)
    → Le (compare_timers (text "last") is_desc) a b
    → Le (known_first (λ t. t.time_since_last_sec)) a b
unfolding compare_timers compare_key
last_none_last is_desc a b h =
    none_last a.time_since_last_sec b.time_since_last_sec is_desc (by_unit a b) (ground arith)

-- Sorted by the next or by the last run, in either order, the rows without that time come after all
-- rows that have it.
pub unknown_times_last :
    (items : List TimerItem) (order : Text)
    → IsSorted
        (known_first (λ t. t.time_until_next_sec))
        (sort_timer_items items (text "next") order)
      × IsSorted
          (known_first (λ t. t.time_since_last_sec))
          (sort_timer_items items (text "last") order)
unknown_times_last items order =
    let is_desc = eq_ignore_ascii_case order (text "desc") in
    (
      IsSorted-imp _ _ (next_none_last is_desc) (sort_timer_items items (text "next") order)
          (sort_timer_items-IsSorted items (text "next") order).1,
      IsSorted-imp _ _ (last_none_last is_desc) (sort_timer_items items (text "last") order)
          (sort_timer_items-IsSorted items (text "last") order).1,
    )
