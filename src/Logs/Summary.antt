-- ===== src/Logs/Summary.antt =====
-- The triage summary of `list_logs`.
use systemd_monitoring_mcp.Base.{
  ℕ, Ordering, compare, Bool, false, Option, none, some, List, [], ◌∷◌, map, leb, take, filter_by,
  and_then, option_map, unwrap_or, lexicographic,
}
use systemd_monitoring_mcp.Base.Sort.{sort_by}
use systemd_monitoring_mcp.Text.{Text, text, text_compare}
use systemd_monitoring_mcp.Text.Number.{parse_unsigned}
use systemd_monitoring_mcp.Counts.{Counts, tally}
use systemd_monitoring_mcp.Units.{JournalLogEntry}

-- A `HashMap` hands out its entries in any order; the sorts below order them by all that they hold,
-- so that the ordered tallies serve for it. `MessageSummary` and `ErrorHotspotSummary` are a key and
-- its count.
pub record LogSummary : Type 0 where
  pub counts_by_unit : Counts
  pub counts_by_priority : Counts
  pub top_messages : Counts
  pub error_hotspots : Counts

-- The keys that the loop counts: of `if let Some(..)`, those that are there.
unfoldable pub present : List (Option Text) → List Text
present [] = []
present (none ∷ rest) = present rest
present (some s ∷ rest) = s ∷ present rest

unfoldable pub is_error : JournalLogEntry → Bool
unfolding parse_unsigned
is_error entry =
    unwrap_or
      (option_map (λ priority. leb priority 3) (and_then entry.priority (parse_unsigned 255))) false

-- By count, the largest first, then by key
unfoldable pub by_count : Text × ℕ → Text × ℕ → Ordering
by_count = lexicographic (λ l r. compare r.1 l.1) (λ l r. text_compare l.0 r.0)

abbrev pub by_key : Text × ℕ → Text × ℕ → Ordering
by_key left right = text_compare left.0 right.0

-- `BTreeMap::from_iter` of entries whose keys are all different
unfoldable pub btree_map : Counts → Counts
unfolding sort_by
btree_map entries = sort_by by_key entries

unfoldable pub build_log_summary : List JournalLogEntry → LogSummary
unfolding present is_error by_count tally sort_by btree_map
build_log_summary entries = record {
  counts_by_unit =
      btree_map (take 10 (sort_by by_count (tally (present (map (λ e. e.unit) entries)))));
  counts_by_priority =
      btree_map (sort_by by_key (tally (map (λ e. unwrap_or e.priority (text "unknown")) entries)));
  top_messages = take 10 (sort_by by_count (tally (present (map (λ e. e.message) entries))));
  error_hotspots =
      sort_by by_count (tally (present (map (λ e. e.unit) (filter_by is_error entries))));
}
