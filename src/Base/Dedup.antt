-- ===== src/Base/Dedup.antt =====
-- `Vec::dedup_by`, and what it makes of a sorted list.
use Prim.Native.Nat.{Ordering}
use mathlib.Core.Path.{◌≡◌, refl}
use mathlib.Core.Logic.{inl, inr}
use mathlib.Core.Bool.{Bool, true, false, ◌||◌}
use mathlib.Core.List.{List, [], ◌∷◌, ◌++◌}
use native.Mathlib.Omega.{arith}
use systemd_monitoring_mcp.Base.Tests.{if◌then◌else◌, Bool-cases}
use systemd_monitoring_mcp.Base.Lists.{any_by, All, All-imp}
use systemd_monitoring_mcp.Base.Order.{Le, IsOrder, lt_trans, Ordering-cases}
use systemd_monitoring_mcp.Base.Sort.{IsSorted}

module _ {ℓ} {A : Type ℓ} where
  -- Items that are the same as the last one that was kept go.
  pub dedup_from : (A → A → Bool) → A → List A → List A
  dedup_from same kept [] = []
  dedup_from same kept (x ∷ xs) =
      if same x kept then dedup_from same kept xs else x ∷ dedup_from same x xs

  unfoldable pub dedup_by : (A → A → Bool) → List A → List A
  unfolding dedup_from
  dedup_by same [] = []
  dedup_by same (x ∷ xs) = x ∷ dedup_from same x xs

  -- Each item stands strictly before all that follow it.
  abbrev pub IsStrict : (A → A → Ordering) → List A → Type 0
  IsStrict cmp [] = Unit
  IsStrict cmp (x ∷ xs) = All (λ y. cmp x y ≡ Ordering.lt) xs × IsStrict cmp xs

  pub any_by-append :
      (p : A → Bool) (xs ys : List A) → any_by p (xs ++ ys) ≡ any_by p xs || any_by p ys
  any_by-append p [] ys = refl
  any_by-append p (x ∷ xs) ys = ground (arith, any_by-append p xs ys)

  -- A test that cannot tell same items apart finds what it found before.
  any_by-dedup_from :
      (p : A → Bool) (same : A → A → Bool)
      → ((a b : A) → same a b ≡ true → p a ≡ p b)
      → (kept : A) (xs : List A)
      → p kept || any_by p (dedup_from same kept xs) ≡ p kept || any_by p xs
  unfolding dedup_from
  any_by-dedup_from p same h kept [] = refl
  any_by-dedup_from p same h kept (x ∷ xs) =
      ground (arith, h x kept, any_by-dedup_from p same h kept xs, any_by-dedup_from p same h x xs)

  pub any_by-dedup_by :
      (p : A → Bool) (same : A → A → Bool)
      → ((a b : A) → same a b ≡ true → p a ≡ p b)
      → (xs : List A) → any_by p (dedup_by same xs) ≡ any_by p xs
  unfolding dedup_by
  any_by-dedup_by p same h [] = refl
  any_by-dedup_by p same h (x ∷ xs) = any_by-dedup_from p same h x xs

  dedup_from-All {κ} :
      (P : A → Type κ) (same : A → A → Bool) (kept : A) (xs : List A)
      → All P xs
      → All P (dedup_from same kept xs)
  unfolding dedup_from
  dedup_from-All P same kept [] h = tt
  dedup_from-All P same kept (x ∷ xs) h = elim (Bool-cases (same x kept)) [
    | inl e ↦ rw e (dedup_from-All P same kept xs h.1)
    | inr e ↦ rw e (h.0, dedup_from-All P same x xs h.1)
  ]

  pub dedup_by-All {κ} :
      (P : A → Type κ) (same : A → A → Bool) (xs : List A) → All P xs → All P (dedup_by same xs)
  unfolding dedup_by
  dedup_by-All P same [] h = tt
  dedup_by-All P same (x ∷ xs) h = (h.0, dedup_from-All P same x xs h.1)

module _ {ℓ} {A : Type ℓ} (cmp : A → A → Ordering) (o : IsOrder cmp) (same : A → A → Bool)
    (equal : (a b : A) → cmp a b ≡ Ordering.eq → same b a ≡ true) where
  strict_step : (a b : A) → Le cmp a b → same b a ≡ false → cmp a b ≡ Ordering.lt
  strict_step a b h d = elim (Ordering-cases (cmp a b)) [
    | inl e ↦ e
    | inr (inl e) ↦ absurd (cc (equal a b e))
    | inr (inr e) ↦ absurd (cc (rw e at h))
  ]

  dedup_from-IsStrict :
      (kept : A) (xs : List A)
      → IsSorted cmp (kept ∷ xs)
      → IsStrict cmp (kept ∷ dedup_from same kept xs)
  unfolding dedup_from
  dedup_from-IsStrict kept [] s = (tt, tt)
  dedup_from-IsStrict kept (x ∷ xs) s = elim (Bool-cases (same x kept)) [
    | inl e ↦ rw e (dedup_from-IsStrict kept xs (s.0.1, s.1.1))
    | inr e ↦
        let step : cmp kept x ≡ Ordering.lt = strict_step kept x s.0.0 e in
        let rest = dedup_from-IsStrict x xs s.1 in
        rw e (
          (
            step,
            All-imp (λ y. cmp x y ≡ Ordering.lt) (λ y. cmp kept y ≡ Ordering.lt)
                (λ y. lt_trans cmp o kept x y step) (dedup_from same x xs) rest.0,
          ),
          rest,
        )
  ]

  -- Without same neighbours a sorted list is strictly sorted, so that no two of its items are the same.
  pub dedup_by-IsStrict : (xs : List A) → IsSorted cmp xs → IsStrict cmp (dedup_by same xs)
  unfolding dedup_by
  dedup_by-IsStrict [] s = tt
  dedup_by-IsStrict (x ∷ xs) s = dedup_from-IsStrict x xs s
