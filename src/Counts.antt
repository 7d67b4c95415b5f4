-- ===== src/Counts.antt =====
-- `BTreeMap<String, usize>` and `HashMap<String, usize>` as the summaries use them: counters by key,
-- ordered by key, that `*map.entry(key).or_insert(0) += 1` counts up.
pub mod Laws
use systemd_monitoring_mcp.Base.{ℕ, suc, ◌+◌, Ordering, Option, List, [], ◌∷◌}
use systemd_monitoring_mcp.Text.{Text, text_compare, text_eq}
use systemd_monitoring_mcp.Base.{if◌then◌else◌}
use systemd_monitoring_mcp.Json.{Json, number, pos_int, Fields, end, field}

abbrev pub Counts : Type 0
Counts = List (Text × ℕ)

pub count_up : Text → Counts → Counts
unfolding text_compare
count_up k [] = (k, 1) ∷ []
count_up k ((j, n) ∷ m) = elim (text_compare k j) [
  | Ordering.lt ↦ (k, 1) ∷ (j, n) ∷ m
  | Ordering.eq ↦ (j, suc n) ∷ m
  | Ordering.gt ↦ (j, n) ∷ count_up k m
]

-- The loop over the keys of all rows
tally_from : Counts → List Text → Counts
tally_from m [] = m
tally_from m (k ∷ ks) = tally_from (count_up k m) ks

unfoldable pub tally : List Text → Counts
unfolding tally_from count_up
tally keys = tally_from [] keys

-- The count of a key, 0 where it has none.
pub count_of : Text → Counts → ℕ
unfolding text_eq
count_of k [] = 0
count_of k ((j, n) ∷ m) = if text_eq j k then n else count_of k m

pub sum : Counts → ℕ
sum [] = 0
sum ((j, n) ∷ m) = n + sum m

-- A map serialises as an object with its entries in order.
unfoldable pub counts_json : Counts → Fields
counts_json [] = end
counts_json ((k, n) ∷ m) = field k (number (pos_int n)) (counts_json m)
