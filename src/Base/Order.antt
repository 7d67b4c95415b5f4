-- ===== src/Base/Order.antt =====
-- Comparison functions into `Ordering`, as `std::cmp::Ordering` combines them, and their laws.
use Prim.Native.Nat.{compare, Ordering}
use mathlib.Core.Path.{◌≡◌, refl}
use mathlib.Core.Logic.{◌⊎◌, inl, inr}
use mathlib.Core.Bool.{Bool, true, false}
use native.Mathlib.Omega.{arith}
use systemd_monitoring_mcp.Base.Tests.{if◌then◌else◌}
use systemd_monitoring_mcp.Base.Int.{compare_ℤ}

-- `Ordering::reverse`
abbrev pub reversed : Ordering → Ordering
reversed Ordering.lt = Ordering.gt
reversed Ordering.eq = Ordering.eq
reversed Ordering.gt = Ordering.lt

-- `Ordering::then_with`
abbrev pub then_with : Ordering → Ordering → Ordering
then_with Ordering.lt o = Ordering.lt
then_with Ordering.eq o = o
then_with Ordering.gt o = Ordering.gt

-- `bool::cmp`: false comes before true.
abbrev pub compare_bool : Bool → Bool → Ordering
compare_bool false false = Ordering.eq
compare_bool false true = Ordering.lt
compare_bool true false = Ordering.gt
compare_bool true true = Ordering.eq

abbrev pub not_gt : Ordering → Bool
not_gt Ordering.gt = false
not_gt _ = true

module _ {ℓ} {A : Type ℓ} (cmp : A → A → Ordering) where
  -- `a` may stand before `b`.
  abbrev pub Le : A → A → Type 0
  Le a b = not_gt (cmp a b) ≡ true

-- What `slice::sort_by` asks of a comparison: a total preorder.
pub record IsOrder {ℓ} {A : Type ℓ} (cmp : A → A → Ordering) : Type ℓ where
  pub flip : (a b : A) → cmp b a ≡ reversed (cmp a b)
  pub trans : (a b c : A) → Le cmp a b → Le cmp b c → Le cmp a c

pub compare-IsOrder : IsOrder compare
compare-IsOrder = record { flip = λ a b. ground arith; trans = λ a b c p q. ground arith }

pub compare_ℤ-IsOrder : IsOrder compare_ℤ
compare_ℤ-IsOrder = record { flip = λ a b. ground arith; trans = λ a b c p q. ground arith }

pub compare_bool-IsOrder : IsOrder compare_bool
compare_bool-IsOrder = record { flip = λ a b. ground arith; trans = λ a b c p q. ground arith }

module _ {ℓ κ} {A : Type ℓ} {B : Type κ} where
  -- Values compared by a key.
  abbrev pub compare_by : (A → B) → (B → B → Ordering) → A → A → Ordering
  compare_by f cmp a b = cmp (f a) (f b)

  pub compare_by-IsOrder :
      (f : A → B) (cmp : B → B → Ordering) → IsOrder cmp → IsOrder (compare_by f cmp)
  compare_by-IsOrder f cmp o = record {
    flip = λ a b. o.flip (f a) (f b);
    trans = λ a b c p q. o.trans (f a) (f b) (f c) p q;
  }

module _ {ℓ} {A : Type ℓ} where
  -- A second comparison breaks the ties of the first.
  abbrev pub lexicographic : (A → A → Ordering) → (A → A → Ordering) → A → A → Ordering
  lexicographic first second a b = then_with (first a b) (second a b)

  pub lexicographic-IsOrder :
      (first second : A → A → Ordering)
      → IsOrder first
      → IsOrder second
      → IsOrder (lexicographic first second)
  lexicographic-IsOrder first second o p = record {
    flip = λ a b. ground (arith, o.flip a b, p.flip a b);
    trans = λ a b c h k. ground (
      arith,
      o.flip a b,
      o.flip b c,
      o.flip a c,
      o.trans a b c,
      o.trans c b a,
      o.trans b c a,
      o.trans c a b,
      p.trans a b c,
    );
  }

  abbrev pub descending : (A → A → Ordering) → A → A → Ordering
  descending cmp a b = cmp b a

  pub descending-IsOrder : (cmp : A → A → Ordering) → IsOrder cmp → IsOrder (descending cmp)
  descending-IsOrder cmp o = record {
    flip = λ a b. o.flip b a;
    trans = λ a b c p q. o.trans c b a q p;
  }

  -- The order of `a` and `b` decides that of `b` and `a`.
  pub Le_total :
      (cmp : A → A → Ordering) → IsOrder cmp → (a b : A) → not_gt (cmp a b) ≡ false → Le cmp b a
  Le_total cmp o a b h = ground (arith, o.flip a b)

  pub Le_refl : (cmp : A → A → Ordering) → IsOrder cmp → (a : A) → Le cmp a a
  Le_refl cmp o a = ground (arith, o.flip a a)

pub Ordering-cases : (o : Ordering) → (o ≡ Ordering.lt) ⊎ ((o ≡ Ordering.eq) ⊎ (o ≡ Ordering.gt))
Ordering-cases Ordering.lt = inl refl
Ordering-cases Ordering.eq = inr (inl refl)
Ordering-cases Ordering.gt = inr (inr refl)

-- A strict step followed by a strict step is strict.
pub lt_trans {ℓ} :
    {A : Type ℓ} (cmp : A → A → Ordering)
    → IsOrder cmp
    → (a b c : A) → cmp a b ≡ Ordering.lt
    → cmp b c ≡ Ordering.lt
    → cmp a c ≡ Ordering.lt
lt_trans cmp o a b c h k =
    ground (arith, o.flip a b, o.flip b c, o.flip a c, o.trans a b c, o.trans c a b, o.trans b c a)

module _ {ℓ} {A : Type ℓ} where
  -- A test that does not depend on the values chooses between two comparisons.
  pub if-IsOrder :
      (b : Bool) (first second : A → A → Ordering)
      → IsOrder first
      → IsOrder second
      → IsOrder (λ x y. if b then first x y else second x y)
  if-IsOrder true first second o p = o
  if-IsOrder false first second o p = p

  pub reversed-IsOrder :
      (cmp : A → A → Ordering) → IsOrder cmp → IsOrder (λ x y. reversed (cmp x y))
  reversed-IsOrder cmp o = record {
    flip = λ a b. ground (arith, o.flip a b);
    trans = λ a b c h k. ground (arith, o.flip a b, o.flip b c, o.flip a c, o.trans c b a);
  }
