-- ===== src/Counts/Laws.antt =====
-- Tallies count what is there: each key as often as it occurs, and all rows together.
use systemd_monitoring_mcp.Base.{
  ℕ, suc, ◌+◌, ◌≤◌, ◌≡◌, refl, List, [], ◌∷◌, arith, length, inl, inr, if◌then◌else◌, All, All-imp,
  Ordering, reversed, ap, ◌∙◌,
}
use systemd_monitoring_mcp.Base.Order.{Ordering-cases, lt_trans}
use systemd_monitoring_mcp.Text.{Text, text_eq, text_compare}
use systemd_monitoring_mcp.Text.Laws.{text_eq→≡}
use systemd_monitoring_mcp.Text.Order.{text_compare_eq, text_compare_refl, text_compare-IsOrder}
use systemd_monitoring_mcp.Counts.{Counts, count_up, tally_from, tally, count_of, sum}

-- How often a key occurs.
abbrev pub occurrences : Text → List Text → ℕ
occurrences k [] = 0
occurrences k (j ∷ js) = (if text_eq j k then 1 else 0) + occurrences k js

abbrev Precedes : Text → Counts → Type 0
Precedes k m = All (λ e. text_compare k e.0 ≡ Ordering.lt) m

-- Keys in strictly ascending order, so that each has one entry.
abbrev pub IsOrdered : Counts → Type 0
IsOrdered [] = Unit
IsOrdered ((j, n) ∷ m) = Precedes j m × IsOrdered m

Precedes-trans :
    (k i : Text) (m : Counts) → text_compare k i ≡ Ordering.lt → Precedes i m → Precedes k m
Precedes-trans k i m h =
    All-imp (λ e. text_compare i e.0 ≡ Ordering.lt) (λ e. text_compare k e.0 ≡ Ordering.lt)
      (λ e p. lt_trans text_compare text_compare-IsOrder k i e.0 h p) m

Precedes-count_up :
    (i k : Text) (m : Counts)
    → text_compare i k ≡ Ordering.lt
    → Precedes i m
    → Precedes i (count_up k m)
unfolding count_up
Precedes-count_up i k [] h p = (h, tt)
Precedes-count_up i k ((j, n) ∷ m) h p = elim (Ordering-cases (text_compare k j)) [
  | inl e ↦ rw (e, count_up) (h, p)
  | inr (inl e) ↦ rw (e, count_up) p
  | inr (inr e) ↦ rw (e, count_up) (p.0, Precedes-count_up i k m h p.1)
]

count_up-IsOrdered : (k : Text) (m : Counts) → IsOrdered m → IsOrdered (count_up k m)
unfolding count_up
count_up-IsOrdered k [] h = (tt, tt)
count_up-IsOrdered k ((j, n) ∷ m) h = elim (Ordering-cases (text_compare k j)) [
  | inl e ↦ rw (e, count_up) ((e, Precedes-trans k j m e h.0), h)
  | inr (inl e) ↦ rw (e, count_up) h
  | inr (inr e) ↦
      let below = text_compare-IsOrder.flip k j ∙ ap reversed e in
      rw (e, count_up) (Precedes-count_up j k m below h.0, count_up-IsOrdered k m h.1)
]

-- A key before all others has no entry.
count_of_absent : (k : Text) (m : Counts) → Precedes k m → count_of k m ≡ 0
unfolding count_of
count_of_absent k [] h = refl
count_of_absent k ((j, n) ∷ m) h =
    ground (arith, h.0, text_eq→≡ j k, text_compare_refl k, count_of_absent k m h.1)

count_of-count_up :
    (k j : Text) (m : Counts)
    → IsOrdered m
    → count_of j (count_up k m) ≡ count_of j m + (if text_eq k j then 1 else 0)
unfolding count_of count_up
count_of-count_up k j [] h = ground arith
count_of-count_up k j ((i, n) ∷ m) h = elim (Ordering-cases (text_compare k i)) [
  | inl e ↦
      rw (e, count_up)
        (ground (
          arith,
          e,
          text_eq→≡ k j,
          text_eq→≡ i j,
          text_compare_refl i,
          count_of_absent k m (Precedes-trans k i m e h.0),
        ))
  | inr (inl e) ↦ rw (e, count_up) (rw (text_compare_eq k i e) (ground arith))
  | inr (inr e) ↦
      rw (e, count_up)
        (ground (
          arith,
          count_of-count_up k j m h.1,
          text_eq→≡ i j,
          text_eq→≡ k j,
          text_compare_refl i,
          e,
        ))
]

tally_from-IsOrdered : (m : Counts) (keys : List Text) → IsOrdered m → IsOrdered (tally_from m keys)
unfolding tally_from
tally_from-IsOrdered m [] h = h
tally_from-IsOrdered m (k ∷ ks) h =
    tally_from-IsOrdered (count_up k m) ks (count_up-IsOrdered k m h)

count_of-tally_from :
    (j : Text) (m : Counts) (keys : List Text)
    → IsOrdered m
    → count_of j (tally_from m keys) ≡ count_of j m + occurrences j keys
unfolding tally_from
count_of-tally_from j m [] h = omega arith
count_of-tally_from j m (k ∷ ks) h = omega (
  arith,
  count_of-count_up k j m h,
  count_of-tally_from j (count_up k m) ks (count_up-IsOrdered k m h),
)

sum-count_up : (k : Text) (m : Counts) → sum (count_up k m) ≡ suc (sum m)
unfolding sum count_up
sum-count_up k [] = refl
sum-count_up k ((j, n) ∷ m) = ground (arith, sum-count_up k m)

sum-tally_from : (m : Counts) (keys : List Text) → sum (tally_from m keys) ≡ sum m + length keys
unfolding tally_from
sum-tally_from m [] = omega arith
sum-tally_from m (k ∷ ks) = omega (arith, sum-count_up k m, sum-tally_from (count_up k m) ks)

count_up-counted :
    (k : Text) (m : Counts) → All (λ e. 1 ≤ e.1) m → All (λ e. 1 ≤ e.1) (count_up k m)
unfolding count_up
count_up-counted k [] h = (omega arith, tt)
count_up-counted k ((j, n) ∷ m) h = elim (Ordering-cases (text_compare k j)) [
  | inl e ↦ rw (e, count_up) (omega arith, h)
  | inr (inl e) ↦ rw (e, count_up) (omega arith, h.1)
  | inr (inr e) ↦ rw (e, count_up) (h.0, count_up-counted k m h.1)
]

tally_from-counted :
    (m : Counts) (keys : List Text) → All (λ e. 1 ≤ e.1) m → All (λ e. 1 ≤ e.1) (tally_from m keys)
unfolding tally_from
tally_from-counted m [] h = h
tally_from-counted m (k ∷ ks) h = tally_from-counted (count_up k m) ks (count_up-counted k m h)

-- A tally has each key as often as it occurs, every row counted once, and its keys in order.
pub tally_exact :
    (keys : List Text)
    → ((k : Text) → count_of k (tally keys) ≡ occurrences k keys)
      × (sum (tally keys) ≡ length keys)
      × IsOrdered (tally keys)
unfolding tally
tally_exact keys = (
  λ k. (unfold count_of in omega (arith, count_of-tally_from k [] keys tt)),
  (unfold sum in omega (arith, sum-tally_from [] keys)),
  tally_from-IsOrdered [] keys tt,
)

-- The counts of some keys: each key as often as it occurs, one entry for a key, none for a key that
-- does not occur.
pub record IsTally (keys : List Text) (counts : Counts) : Type 0 where
  pub counted : (k : Text) → count_of k counts ≡ occurrences k keys
  pub distinct : IsOrdered counts
  pub occurring : All (λ (e : Text × ℕ). 1 ≤ e.1) counts

pub tally-IsTally : (keys : List Text) → IsTally keys (tally keys)
unfolding tally
tally-IsTally keys = record {
  counted = (tally_exact keys).0;
  distinct = tally_from-IsOrdered [] keys tt;
  occurring = tally_from-counted [] keys tt;
}
