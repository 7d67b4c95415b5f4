-- ===== src/Logs/Grouping.antt =====
-- What grouping a page of journal entries keeps.
use systemd_monitoring_mcp.Base.{
  ℕ, suc, ◌+◌, ◌≡◌, refl, ap, true, false, ◌&&◌, Option, none, some, List, [], ◌∷◌, arith, All, inl,
  inr, Bool-cases, if◌then◌else◌, length, &&_both,
}
use systemd_monitoring_mcp.Text.{Text}
use systemd_monitoring_mcp.Text.Laws.{text_eq→≡}
use systemd_monitoring_mcp.Units.{JournalLogEntry}
use systemd_monitoring_mcp.Logs.Groups.{
  Key, key_of, optional_eq, key_eq, Group, add_entry, add_entries,
}

optional_eq→≡ : (s t : Option Text) → optional_eq s t ≡ true → s ≡ t
unfolding optional_eq
optional_eq→≡ none none h = refl
optional_eq→≡ none (some t) h = cc h
optional_eq→≡ (some s) none h = cc h
optional_eq→≡ (some s) (some t) h = ap some (text_eq→≡ s t h)

key_eq→≡ : (k l : Key) → key_eq k l ≡ true → k ≡ l
unfolding key_eq
key_eq→≡ (u, p, m) (v, q, n) h =
    let (hr, hm) = &&_both {a = optional_eq u v && optional_eq p q} {b = optional_eq m n} h in
    let (hu, hp) = &&_both {a = optional_eq u v} {b = optional_eq p q} hr in
    cc (optional_eq→≡ u v hu, optional_eq→≡ p q hp, optional_eq→≡ m n hm)

-- All the entries that the groups of a key stand for.
abbrev pub counted : Key → List Group → ℕ
counted k [] = 0
counted k (g ∷ gs) = (if key_eq g.key k then g.count else 0) + counted k gs

abbrev pub total : List Group → ℕ
total [] = 0
total (g ∷ gs) = g.count + total gs

-- No two groups with the same key.
abbrev pub IsDistinct : List Group → Type 0
IsDistinct [] = Unit
IsDistinct (g ∷ gs) = All (λ h. key_eq g.key h.key ≡ false) gs × IsDistinct gs

abbrev pub occurring : Key → List JournalLogEntry → ℕ
occurring k [] = 0
occurring k (e ∷ es) = (if key_eq (key_of e) k then 1 else 0) + occurring k es

module _ (fields : List Text) where
  counted-add_entry :
      (k : Key) (e : JournalLogEntry) (gs : List Group)
      → counted k (add_entry fields e gs) ≡ (if key_eq (key_of e) k then 1 else 0) + counted k gs
  unfolding add_entry
  counted-add_entry k e [] = refl
  counted-add_entry k e (g ∷ gs) = elim (Bool-cases (key_eq g.key (key_of e))) [
    | inl h ↦ rw h (rw (key_eq→≡ g.key (key_of e) h) (ground arith))
    | inr h ↦ rw h (omega (arith, counted-add_entry k e gs))
  ]

  total-add_entry :
      (e : JournalLogEntry) (gs : List Group) → total (add_entry fields e gs) ≡ suc (total gs)
  unfolding add_entry
  total-add_entry e [] = refl
  total-add_entry e (g ∷ gs) = ground (arith, total-add_entry e gs)

  others-add_entry :
      (k : Key) (e : JournalLogEntry) (gs : List Group)
      → key_eq k (key_of e) ≡ false
      → All (λ h. key_eq k h.key ≡ false) gs
      → All (λ h. key_eq k h.key ≡ false) (add_entry fields e gs)
  unfolding add_entry
  others-add_entry k e [] h a = (h, tt)
  others-add_entry k e (g ∷ gs) h a = elim (Bool-cases (key_eq g.key (key_of e))) [
    | inl q ↦ rw q a
    | inr q ↦ rw q (a.0, others-add_entry k e gs h a.1)
  ]

  add_entry-IsDistinct :
      (e : JournalLogEntry) (gs : List Group) → IsDistinct gs → IsDistinct (add_entry fields e gs)
  unfolding add_entry
  add_entry-IsDistinct e [] d = (tt, tt)
  add_entry-IsDistinct e (g ∷ gs) d = elim (Bool-cases (key_eq g.key (key_of e))) [
    | inl q ↦ rw q d
    | inr q ↦ rw q (others-add_entry g.key e gs q d.0, add_entry-IsDistinct e gs d.1)
  ]

  counted-add_entries :
      (k : Key) (gs : List Group) (es : List JournalLogEntry)
      → counted k (add_entries fields gs es) ≡ counted k gs + occurring k es
  unfolding add_entries
  counted-add_entries k gs [] = omega arith
  counted-add_entries k gs (e ∷ es) =
      omega (arith, counted-add_entries k (add_entry fields e gs) es, counted-add_entry k e gs)

  total-add_entries :
      (gs : List Group) (es : List JournalLogEntry)
      → total (add_entries fields gs es) ≡ total gs + length es
  unfolding add_entries
  total-add_entries gs [] = omega arith
  total-add_entries gs (e ∷ es) =
      omega (arith, total-add_entries (add_entry fields e gs) es, total-add_entry e gs)

  add_entries-IsDistinct :
      (gs : List Group) (es : List JournalLogEntry)
      → IsDistinct gs
      → IsDistinct (add_entries fields gs es)
  unfolding add_entries
  add_entries-IsDistinct gs [] d = d
  add_entries-IsDistinct gs (e ∷ es) d =
      add_entries-IsDistinct (add_entry fields e gs) es (add_entry-IsDistinct e gs d)

  -- Grouping loses and duplicates nothing: no two groups share a unit, priority and message, the
  -- group of each counts exactly the entries with them, and all groups together count the page.
  pub groups_exact :
      (entries : List JournalLogEntry)
      → IsDistinct (add_entries fields [] entries)
        × ((k : Key) → counted k (add_entries fields [] entries) ≡ occurring k entries)
        × (total (add_entries fields [] entries) ≡ length entries)
  groups_exact entries = (
    add_entries-IsDistinct [] entries tt,
    λ k. omega (arith, counted-add_entries k [] entries),
    omega (arith, total-add_entries [] entries),
  )
