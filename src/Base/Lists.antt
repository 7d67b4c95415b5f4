-- ===== src/Base/Lists.antt =====
-- Lists measured by native numbers, predicates on all elements, and Boolean filters.
use Prim.Native.Nat.{ℕ, zero, suc, ◌+◌, ◌≤◌, min}
use mathlib.Core.Path.{◌≡◌, refl, ap, ap₂, ◌∙◌}
use mathlib.Core.Bool.{Bool, true, false, ◌&&◌, ◌||◌}
use mathlib.Core.Option.{Option, none, some}
use mathlib.Core.Logic.{inl, inr}
use mathlib.Core.List.{List, [], ◌∷◌, ◌++◌, map}
use native.Mathlib.Omega.{arith}
use systemd_monitoring_mcp.Base.Tests.{if◌then◌else◌, Bool-cases, Option-cases}

module _ {ℓ} {A : Type ℓ} where
  abbrev pub length : List A → ℕ
  length [] = 0
  length (x ∷ xs) = suc (length xs)

  abbrev pub take : ℕ → List A → List A
  take zero xs = []
  take (suc n) [] = []
  take (suc n) (x ∷ xs) = x ∷ take n xs

  abbrev pub drop : ℕ → List A → List A
  drop zero xs = xs
  drop (suc n) [] = []
  drop (suc n) (x ∷ xs) = drop n xs

  abbrev pub replicate : ℕ → A → List A
  replicate zero a = []
  replicate (suc n) a = a ∷ replicate n a

  -- `iter().filter(p).collect()`
  abbrev pub filter_by : (A → Bool) → List A → List A
  filter_by p [] = []
  filter_by p (x ∷ xs) = if p x then x ∷ filter_by p xs else filter_by p xs

  -- `iter().all(p)` and `iter().any(p)`
  abbrev pub all_by : (A → Bool) → List A → Bool
  all_by p [] = true
  all_by p (x ∷ xs) = p x && all_by p xs

  abbrev pub any_by : (A → Bool) → List A → Bool
  any_by p [] = false
  any_by p (x ∷ xs) = p x || any_by p xs

  -- `iter().find(p)`
  abbrev pub find_by : (A → Bool) → List A → Option A
  find_by p [] = none
  find_by p (x ∷ xs) = if p x then some x else find_by p xs

  -- `iter().filter_map(f).collect()`
  abbrev pub filter_map {κ} : {B : Type κ} → (A → Option B) → List A → List B
  filter_map f [] = []
  filter_map f (x ∷ xs) = elim (f x) [ none ↦ filter_map f xs | some y ↦ y ∷ filter_map f xs ]

  -- `slice::last`
  abbrev pub last? : List A → Option A
  last? [] = none
  last? (x ∷ []) = some x
  last? (x ∷ y ∷ xs) = last? (y ∷ xs)

  abbrev pub All {κ} : (A → Type κ) → List A → Type κ
  All P [] = Unit
  All P (x ∷ xs) = P x × All P xs

  pub length-append : (xs ys : List A) → length (xs ++ ys) ≡ length xs + length ys
  length-append [] ys = omega arith
  length-append (x ∷ xs) ys = omega (arith, length-append xs ys)

  pub length-take : (n : ℕ) (xs : List A) → length (take n xs) ≡ min n (length xs)
  length-take zero xs = omega arith
  length-take (suc n) [] = omega arith
  length-take (suc n) (x ∷ xs) = omega (arith, length-take n xs)

  pub take-append-drop : (n : ℕ) (xs : List A) → take n xs ++ drop n xs ≡ xs
  take-append-drop zero xs = refl
  take-append-drop (suc n) [] = refl
  take-append-drop (suc n) (x ∷ xs) = ap (◌∷◌ x) (take-append-drop n xs)

  pub take_all : (n : ℕ) (xs : List A) → length xs ≤ n → take n xs ≡ xs
  take_all zero [] h = refl
  take_all zero (x ∷ xs) h = absurd (omega arith)
  take_all (suc n) [] h = refl
  take_all (suc n) (x ∷ xs) h = ap (◌∷◌ x) (take_all n xs (omega arith))

  pub All-take {κ} : (P : A → Type κ) (n : ℕ) (xs : List A) → All P xs → All P (take n xs)
  All-take P zero xs h = tt
  All-take P (suc n) [] h = tt
  All-take P (suc n) (x ∷ xs) h = (h.0, All-take P n xs h.1)

  pub All-joined {κ} :
      (P : A → Type κ) (ys : List A) → All P ys → (xs : List A) → All P xs → All P (xs ++ ys)
  All-joined P ys k [] h = k
  All-joined P ys k (x ∷ xs) (hx, hs) = (hx, All-joined P ys k xs hs)

  pub All-imp {κ μ} :
      (P : A → Type κ) (Q : A → Type μ)
      → ((a : A) → P a → Q a)
      → (xs : List A) → All P xs
      → All Q xs
  All-imp P Q f [] h = tt
  All-imp P Q f (x ∷ xs) h = (f x h.0, All-imp P Q f xs h.1)

  pub length-filter_by : (p : A → Bool) (xs : List A) → length (filter_by p xs) ≤ length xs
  length-filter_by p [] = omega arith
  length-filter_by p (x ∷ xs) = ground (arith, length-filter_by p xs)

  pub filter_by-filter_by :
      (p q : A → Bool) (xs : List A) → filter_by q (filter_by p xs) ≡ filter_by (λ x. p x && q x) xs
  filter_by-filter_by p q [] = refl
  filter_by-filter_by p q (x ∷ xs) = ground (arith, filter_by-filter_by p q xs)

  pub filter_by_all : (xs : List A) → filter_by (λ _. true) xs ≡ xs
  filter_by_all [] = refl
  filter_by_all (x ∷ xs) = ap (◌∷◌ x) (filter_by_all xs)

  pub filter_by-All {κ} :
      (P : A → Type κ) (p : A → Bool) (xs : List A) → All P xs → All P (filter_by p xs)
  filter_by-All P p [] h = tt
  filter_by-All P p (x ∷ xs) h = elim (Bool-cases (p x)) [
    | inl e ↦ rw e (h.0, filter_by-All P p xs h.1)
    | inr e ↦ rw e (filter_by-All P p xs h.1)
  ]

  pub All-filter_by : (p : A → Bool) (xs : List A) → All (λ x. p x ≡ true) (filter_by p xs)
  All-filter_by p [] = tt
  All-filter_by p (x ∷ xs) = elim (Bool-cases (p x)) [
    | inl e ↦ rw e (e, All-filter_by p xs)
    | inr e ↦ rw e (All-filter_by p xs)
  ]

pub length-map {ℓ κ} :
    {A : Type ℓ} {B : Type κ} (f : A → B) (xs : List A) → length (map f xs) ≡ length xs
length-map f [] = refl
length-map f (x ∷ xs) = ap suc (length-map f xs)

pub map_same {ℓ} : {A : Type ℓ} (f : A → A) (xs : List A) → All (λ x. f x ≡ x) xs → map f xs ≡ xs
map_same f [] h = refl
map_same f (x ∷ xs) h = ap₂ ◌∷◌ h.0 (map_same f xs h.1)

pub All-map {ℓ κ μ} :
    {A : Type ℓ} {B : Type κ} (P : B → Type μ) (f : A → B)
    → ((a : A) → P (f a))
    → (xs : List A) → All P (map f xs)
All-map P f h [] = tt
All-map P f h (x ∷ xs) = (h x, All-map P f h xs)

module _ {ℓ κ} {A : Type ℓ} {B : Type κ} (f : A → Option B) where
  pub filter_map-some :
      (x : A) (xs : List A) (y : B) → f x ≡ some y → filter_map f (x ∷ xs) ≡ y ∷ filter_map f xs
  filter_map-some x xs y h = rw (filter_map, h)

  pub filter_map-none : (x : A) (xs : List A) → f x ≡ none → filter_map f (x ∷ xs) ≡ filter_map f xs
  filter_map-none x xs h = rw (filter_map, h)

  pub filter_map_empty : (xs : List A) → All (λ x. f x ≡ none) xs → filter_map f xs ≡ []
  filter_map_empty [] h = refl
  filter_map_empty (x ∷ xs) h = filter_map-none x xs h.0 ∙ filter_map_empty xs h.1

  -- What the function makes sure of holds of all that it keeps.
  pub filter_map-All {μ} :
      (P : B → Type μ)
      → ((x : A) (y : B) → f x ≡ some y → P y)
      → (xs : List A) → All P (filter_map f xs)
  filter_map-All P h [] = tt
  filter_map-All P h (x ∷ xs) = elim (Option-cases (f x)) [
    | inl e ↦ rw (filter_map, e) (filter_map-All P h xs)
    | inr (y, e) ↦ rw (filter_map, e) (h x y e, filter_map-All P h xs)
  ]
