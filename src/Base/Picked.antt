-- ===== src/Base/Picked.antt =====
-- Which rows a loop picks, told by a relation between a row and what is made of it, and the first of a
-- list by an order.
use Prim.Native.Nat.{ℕ, Ordering}
use mathlib.Core.Path.{◌≡◌, refl, ap, sym, subst}
use mathlib.Core.Bool.{Bool, true}
use mathlib.Core.Option.{Option, none, some}
use mathlib.Core.Logic.{◌↔◌, inl, inr}
use mathlib.Core.List.{List, [], ◌∷◌, map, Perm}
use systemd_monitoring_mcp.Base.Tests.{if◌then◌else◌, Bool-cases, Option-cases}
use systemd_monitoring_mcp.Base.Lists.{take, filter_by, filter_map}
use systemd_monitoring_mcp.Base.Order.{IsOrder}
use systemd_monitoring_mcp.Base.Sort.{IsSorted, sort_by, sort_by-perm, sort_by-IsSorted}

-- In order: of each row that has one, what the relation makes of it; rows that have none are left out.
pub data Picked {A B : Type 0} (R : A → B → Type 0) : List A → List B → Type 0 where
  picked_all : Picked R [] []
  picked :
      {x : A} {y : B} {xs : List A} {ys : List B}
      → R x y
      → Picked R xs ys
      → Picked R (x ∷ xs) (y ∷ ys)
  passed :
      {x : A} {xs : List A} {ys : List B}
      → ((y : B) → R x y → ⊥)
      → Picked R xs ys
      → Picked R (x ∷ xs) ys

pub filter_map-Picked :
    {A B : Type 0} (f : A → Option B) (R : A → B → Type 0)
    → ((x : A) (y : B) → (f x ≡ some y) ↔ R x y)
    → (xs : List A) → Picked R xs (filter_map f xs)
filter_map-Picked f R h [] = picked_all
filter_map-Picked f R h (x ∷ xs) = elim (Option-cases (f x)) [
  | inl e ↦
      rw (filter_map, e)
        (passed (λ y r. absurd (cc (rw e at (h x y).1 r))) (filter_map-Picked f R h xs))
  | inr (y, e) ↦ rw (filter_map, e) (picked ((h x y).0 e) (filter_map-Picked f R h xs))
]

pub map-Picked :
    {A B : Type 0} (f : A → B) (R : A → B → Type 0)
    → ((x : A) → R x (f x))
    → (xs : List A) → Picked R xs (map f xs)
map-Picked f R h [] = picked_all
map-Picked f R h (x ∷ xs) = picked (h x) (map-Picked f R h xs)

-- `filter(p).map(g)` as one step
abbrev made_if {ℓ κ} : {A : Type ℓ} {B : Type κ} → (A → Bool) → (A → B) → A → Option B
made_if p g x = if p x then some (g x) else none

map-filter_by :
    {A B : Type 0} (p : A → Bool) (g : A → B) (xs : List A)
    → map g (filter_by p xs) ≡ filter_map (made_if p g) xs
map-filter_by p g [] = refl
map-filter_by p g (x ∷ xs) = elim (Bool-cases (p x)) [
  | inl e ↦ rw (filter_map, e) (ap (◌∷◌ (g x)) (map-filter_by p g xs))
  | inr e ↦ rw (filter_map, e) (map-filter_by p g xs)
]

pub filter_by-Picked :
    {A B : Type 0} (p : A → Bool) (g : A → B) (R : A → B → Type 0)
    → ((x : A) → p x ≡ true → R x (g x))
    → ((x : A) (y : B) → R x y → (p x ≡ true) × (g x ≡ y))
    → (xs : List A) → Picked R xs (map g (filter_by p xs))
filter_by-Picked p g R shows reads xs = subst (Picked R xs) (sym (map-filter_by p g xs)) (
    filter_map-Picked (made_if p g) R
      (λ x y. elim (Bool-cases (p x)) [
        | inl e ↦ (
          λ h. let same : g x ≡ y = cc (rw (made_if, e) at h) in subst (R x) same (shows x e),
          λ r. rw (made_if, e) (ap some (reads x y r).1),
        )
        | inr e ↦
            (λ h. absurd (cc (rw (made_if, e) at h)), λ r. absurd (cc (rw e at (reads x y r).0)))
      ])
      xs)

-- The first so many of a list, put in order.
pub record IsFirst {ℓ} {A : Type ℓ} (cmp : A → A → Ordering) (n : ℕ) (xs first : List A)
    : Type ℓ where
  pub ranked : List A
  pub same : Perm ranked xs
  pub ordered : IsSorted cmp ranked
  pub cut : first ≡ take n ranked

pub take-sort_by {ℓ} :
    {A : Type ℓ} (cmp : A → A → Ordering) (n : ℕ) (xs : List A)
    → IsOrder cmp
    → IsFirst cmp n xs (take n (sort_by cmp xs))
take-sort_by cmp n xs o = record {
  ranked = sort_by cmp xs;
  same = sort_by-perm cmp xs;
  ordered = sort_by-IsSorted cmp o xs;
  cut = refl;
}
