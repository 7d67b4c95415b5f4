-- ===== src/Logs/Groups.antt =====
-- The rows of `list_logs`: projections of journal entries, and groups of them.
use systemd_monitoring_mcp.Base.{
  ℕ, suc, Ordering, Bool, true, false, ◌&&◌, Option, none, some, List, [], ◌∷◌, map, if◌then◌else◌,
  option_map,
}
use systemd_monitoring_mcp.Text.{Text, text, text_eq, text_compare}
use systemd_monitoring_mcp.Json.{
  Json, Fields, end, string, number, pos_int, object, integer, nullable, json_object, get_key,
  insert, insert_all,
}
use systemd_monitoring_mcp.Units.{JournalLogEntry}

abbrev text_or_null : Option Text → Json
text_or_null o = nullable (option_map string o)

-- The derived serialisation
unfoldable pub entry_json : JournalLogEntry → Json
entry_json e = json_object (
    (text "timestamp_utc", string e.timestamp_utc)
    ∷ (text "unit", text_or_null e.unit)
    ∷ (text "priority", text_or_null e.priority)
    ∷ (text "hostname", text_or_null e.hostname)
    ∷ (text "pid", nullable (option_map integer e.pid))
    ∷ (text "message", text_or_null e.message)
    ∷ (text "cursor", text_or_null e.cursor)
    ∷ [])

-- `filter_map` over the fields
picked : Json → List Text → List (Text × Json)
unfolding get_key
picked row [] = []
picked row (field ∷ rest) = elim (get_key row field) [
  | none ↦ picked row rest
  | some value ↦ (field, value) ∷ picked row rest
]

unfoldable pub project_entry : JournalLogEntry → List Text → Fields
unfolding entry_json picked insert_all
project_entry entry fields = insert_all end (picked (entry_json entry) fields)

-- What entries are grouped by: unit, priority and message
abbrev pub Key : Type 0
Key = Option Text × Option Text × Option Text

abbrev pub key_of : JournalLogEntry → Key
key_of e = (e.unit, e.priority, e.message)

unfoldable pub optional_eq : Option Text → Option Text → Bool
unfolding text_eq
optional_eq none none = true
optional_eq (some s) (some t) = text_eq s t
optional_eq _ _ = false

unfoldable pub key_eq : Key → Key → Bool
unfolding optional_eq
key_eq (u, p, m) (v, q, n) = optional_eq u v && optional_eq p q && optional_eq m n

pub record Group : Type 0 where
  pub key : Key
  pub count : ℕ
  pub first : Text
  pub last : Text
  pub row : Fields

abbrev new_group : List Text → JournalLogEntry → Group
new_group fields e = record {
  key = key_of e;
  count = 1;
  first = e.timestamp_utc;
  last = e.timestamp_utc;
  row = project_entry e fields;
}

earlier : Text → Text → Text
unfolding text_compare
earlier t first = elim (text_compare t first) [ Ordering.lt ↦ t | _ ↦ first ]

later : Text → Text → Text
unfolding text_compare
later t last = elim (text_compare t last) [ Ordering.gt ↦ t | _ ↦ last ]

abbrev joined : JournalLogEntry → Group → Group
joined e g = record g {
  count = suc g.count;
  first = earlier e.timestamp_utc g.first;
  last = later e.timestamp_utc g.last;
}

-- One entry joins the first group with its key, or starts a new one at the end.
unfoldable pub add_entry : List Text → JournalLogEntry → List Group → List Group
unfolding key_eq earlier later project_entry
add_entry fields e [] = new_group fields e ∷ []
add_entry fields e (g ∷ gs) =
    if key_eq g.key (key_of e) then joined e g ∷ gs else g ∷ add_entry fields e gs

unfoldable pub add_entries : List Text → List Group → List JournalLogEntry → List Group
unfolding add_entry
add_entries fields gs [] = gs
add_entries fields gs (e ∷ es) = add_entries fields (add_entry fields e gs) es

abbrev group_json : Group → Json
group_json g = object (
    insert (text "last_timestamp_utc") (string g.last) (
      insert (text "first_timestamp_utc") (string g.first)
        (insert (text "count") (number (pos_int g.count)) g.row)))

unfoldable pub group_entries : List JournalLogEntry → List Text → List Json
unfolding add_entries insert
group_entries entries fields = map group_json (add_entries fields [] entries)
