-- ===== src/Base/Sort.antt =====
-- `slice::sort_by`: a stable sort, as an insertion sort that puts an item before its equals.
use Prim.Native.Nat.{ℕ, zero, suc, Ordering}
use mathlib.Core.Path.{◌≡◌, refl, ap, ◌∙◌}
use mathlib.Core.Logic.{inl, inr}
use mathlib.Core.Bool.{Bool, true, false, ◌||◌}
use mathlib.Core.List.{List, [], ◌∷◌, Perm}
use mathlib.Core.List.Perm
use native.Mathlib.Omega.{arith}
use systemd_monitoring_mcp.Base.Tests.{if◌then◌else◌, Bool-cases}
use systemd_monitoring_mcp.Base.Lists.{any_by, length, take, filter_by, All, All-imp, All-take}
use systemd_monitoring_mcp.Base.Order.{not_gt, Le, IsOrder, Le_total}

module _ {ℓ} {A : Type ℓ} where
  pub insert_by : (A → A → Ordering) → A → List A → List A
  insert_by cmp x [] = x ∷ []
  insert_by cmp x (y ∷ ys) = if not_gt (cmp x y) then x ∷ y ∷ ys else y ∷ insert_by cmp x ys

  unfoldable pub sort_by : (A → A → Ordering) → List A → List A
  unfolding insert_by
  sort_by cmp [] = []
  sort_by cmp (x ∷ xs) = insert_by cmp x (sort_by cmp xs)

  -- Every item may stand before all that follow it.
  abbrev pub IsSorted : (A → A → Ordering) → List A → Type 0
  IsSorted cmp [] = Unit
  IsSorted cmp (x ∷ xs) = All (Le cmp x) xs × IsSorted cmp xs

  pub insert_by-perm :
      (cmp : A → A → Ordering) (x : A) (xs : List A) → Perm (insert_by cmp x xs) (x ∷ xs)
  unfolding insert_by
  insert_by-perm cmp x [] = Perm.rfl
  insert_by-perm cmp x (y ∷ ys) = elim (Bool-cases (not_gt (cmp x y))) [
    | inl e ↦ rw e Perm.rfl
    | inr e ↦ rw e (Perm.trans (Perm.cons y (insert_by-perm cmp x ys)) (Perm.swap x y ys))
  ]

  -- Sorting rearranges: nothing is lost and nothing is invented.
  pub sort_by-perm : (cmp : A → A → Ordering) (xs : List A) → Perm (sort_by cmp xs) xs
  unfolding sort_by
  sort_by-perm cmp [] = Perm.rfl
  sort_by-perm cmp (x ∷ xs) =
      Perm.trans (insert_by-perm cmp x (sort_by cmp xs)) (Perm.cons x (sort_by-perm cmp xs))

  insert_by-All {κ} :
      (P : A → Type κ) (cmp : A → A → Ordering) (x : A) (xs : List A)
      → P x
      → All P xs
      → All P (insert_by cmp x xs)
  unfolding insert_by
  insert_by-All P cmp x [] h k = (h, tt)
  insert_by-All P cmp x (y ∷ ys) h k = elim (Bool-cases (not_gt (cmp x y))) [
    | inl e ↦ rw e (h, k)
    | inr e ↦ rw e (k.0, insert_by-All P cmp x ys h k.1)
  ]

  pub sort_by-All {κ} :
      (P : A → Type κ) (cmp : A → A → Ordering) (xs : List A) → All P xs → All P (sort_by cmp xs)
  unfolding sort_by
  sort_by-All P cmp [] h = tt
  sort_by-All P cmp (x ∷ xs) h =
      insert_by-All P cmp x (sort_by cmp xs) h.0 (sort_by-All P cmp xs h.1)

  length-insert_by :
      (cmp : A → A → Ordering) (x : A) (xs : List A) → length (insert_by cmp x xs) ≡ suc (length xs)
  unfolding insert_by
  length-insert_by cmp x [] = refl
  length-insert_by cmp x (y ∷ ys) = ground (arith, length-insert_by cmp x ys)

  pub length-sort_by : (cmp : A → A → Ordering) (xs : List A) → length (sort_by cmp xs) ≡ length xs
  unfolding sort_by
  length-sort_by cmp [] = refl
  length-sort_by cmp (x ∷ xs) =
      length-insert_by cmp x (sort_by cmp xs) ∙ ap suc (length-sort_by cmp xs)

  -- Items that a test keeps and that compare as equal stay in the order that they came in.
  insert_by-stable :
      (cmp : A → A → Ordering) (p : A → Bool) (x : A) (xs : List A)
      → p x ≡ true
      → All (λ y. p y ≡ true → Le cmp x y) xs
      → filter_by p (insert_by cmp x xs) ≡ x ∷ filter_by p xs
  unfolding insert_by
  insert_by-stable cmp p x [] h k = rw h
  insert_by-stable cmp p x (y ∷ ys) h k = elim (Bool-cases (not_gt (cmp x y))) [
    | inl e ↦ rw (e, h)
    | inr e ↦ ground (arith, e, k.0, insert_by-stable cmp p x ys h k.1)
  ]

  insert_by-skip :
      (cmp : A → A → Ordering) (p : A → Bool) (x : A) (xs : List A)
      → p x ≡ false
      → filter_by p (insert_by cmp x xs) ≡ filter_by p xs
  unfolding insert_by
  insert_by-skip cmp p x [] h = rw h
  insert_by-skip cmp p x (y ∷ ys) h = ground (arith, insert_by-skip cmp p x ys h)

  pub sort_by-stable :
      (cmp : A → A → Ordering) (p : A → Bool)
      → ((a b : A) → p a ≡ true → p b ≡ true → Le cmp a b)
      → (xs : List A) → filter_by p (sort_by cmp xs) ≡ filter_by p xs
  unfolding sort_by
  sort_by-stable cmp p same [] = refl
  sort_by-stable cmp p same (x ∷ xs) = elim (Bool-cases (p x)) [
    | inl e ↦
        insert_by-stable cmp p x (sort_by cmp xs) e (
          All-imp (λ _. Unit {0}) (λ y. p y ≡ true → Le cmp x y) (λ y _ k. same x y e k)
            (sort_by cmp xs) (all_units (sort_by cmp xs)))
        ∙ rw e (ap (◌∷◌ x) (sort_by-stable cmp p same xs))
    | inr e ↦ insert_by-skip cmp p x (sort_by cmp xs) e ∙ rw e (sort_by-stable cmp p same xs)
  ]
    where
      all_units : (ys : List A) → All (λ _. Unit {0}) ys
      all_units [] = tt
      all_units (y ∷ ys) = (tt, all_units ys)

module _ {ℓ} {A : Type ℓ} where
  any_by-insert_by :
      (p : A → Bool) (cmp : A → A → Ordering) (x : A) (xs : List A)
      → any_by p (insert_by cmp x xs) ≡ p x || any_by p xs
  unfolding insert_by
  any_by-insert_by p cmp x [] = refl
  any_by-insert_by p cmp x (y ∷ ys) = ground (arith, any_by-insert_by p cmp x ys)

  pub any_by-sort_by :
      (p : A → Bool) (cmp : A → A → Ordering) (xs : List A)
      → any_by p (sort_by cmp xs) ≡ any_by p xs
  unfolding sort_by
  any_by-sort_by p cmp [] = refl
  any_by-sort_by p cmp (x ∷ xs) =
      ground (arith, any_by-insert_by p cmp x (sort_by cmp xs), any_by-sort_by p cmp xs)

module _ {ℓ} {A : Type ℓ} (cmp : A → A → Ordering) (o : IsOrder cmp) where
  insert_by-IsSorted : (x : A) (xs : List A) → IsSorted cmp xs → IsSorted cmp (insert_by cmp x xs)
  unfolding insert_by
  insert_by-IsSorted x [] s = (tt, tt)
  insert_by-IsSorted x (y ∷ ys) s = elim (Bool-cases (not_gt (cmp x y))) [
    | inl e ↦ rw e ((e, All-imp (Le cmp y) (Le cmp x) (λ z h. o.trans x y z e h) ys s.0), s)
    | inr e ↦
        rw e (
          insert_by-All (Le cmp y) cmp x ys (Le_total cmp o x y e) s.0,
          insert_by-IsSorted x ys s.1,
        )
  ]

  -- With a total preorder the result is sorted.
  pub sort_by-IsSorted : (xs : List A) → IsSorted cmp (sort_by cmp xs)
  unfolding sort_by
  sort_by-IsSorted [] = tt
  sort_by-IsSorted (x ∷ xs) = insert_by-IsSorted x (sort_by cmp xs) (sort_by-IsSorted xs)

  -- What is sorted already is left as it is.
  insert_by_least : (x : A) (xs : List A) → All (Le cmp x) xs → insert_by cmp x xs ≡ x ∷ xs
  unfolding insert_by
  insert_by_least x [] h = refl
  insert_by_least x (y ∷ ys) h = rw h.0

  pub sort_by_sorted : (xs : List A) → IsSorted cmp xs → sort_by cmp xs ≡ xs
  unfolding sort_by
  sort_by_sorted [] s = refl
  sort_by_sorted (x ∷ xs) s = rw (sort_by_sorted xs s.1) (insert_by_least x xs s.0)

-- A prefix of a sorted list is sorted.
pub IsSorted-take {ℓ} :
    {A : Type ℓ} (cmp : A → A → Ordering) (n : ℕ) (xs : List A)
    → IsSorted cmp xs
    → IsSorted cmp (take n xs)
IsSorted-take cmp zero xs s = tt
IsSorted-take cmp (suc n) [] s = tt
IsSorted-take cmp (suc n) (x ∷ xs) s = (All-take (Le cmp x) n xs s.0, IsSorted-take cmp n xs s.1)

-- Sorted by a comparison is sorted by any that allows what it allows.
pub IsSorted-imp {ℓ} :
    {A : Type ℓ} (cmp other : A → A → Ordering)
    → ((a b : A) → Le cmp a b → Le other a b)
    → (xs : List A) → IsSorted cmp xs
    → IsSorted other xs
IsSorted-imp cmp other f [] s = tt
IsSorted-imp cmp other f (x ∷ xs) s =
    (All-imp (Le cmp x) (Le other x) (f x) xs s.0, IsSorted-imp cmp other f xs s.1)
