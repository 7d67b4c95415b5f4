-- ===== src/Text/Order.antt =====
-- `str::cmp` is a total order.
use systemd_monitoring_mcp.Base.{◌≡◌, refl, [], ◌∷◌, Ordering, arith, reversed}
use systemd_monitoring_mcp.Base.Order.{IsOrder, Le}
use systemd_monitoring_mcp.Text.{Text, text_compare}

text_compare_flip : (s t : Text) → text_compare t s ≡ reversed (text_compare s t)
unfolding text_compare
text_compare_flip [] [] = refl
text_compare_flip [] (d ∷ t) = refl
text_compare_flip (c ∷ s) [] = refl
text_compare_flip (c ∷ s) (d ∷ t) = ground (arith, text_compare_flip s t)

text_compare_trans :
    (s t u : Text) → Le text_compare s t → Le text_compare t u → Le text_compare s u
unfolding text_compare
text_compare_trans [] [] u h k = k
text_compare_trans [] (d ∷ t) [] h k = refl
text_compare_trans [] (d ∷ t) (e ∷ u) h k = refl
text_compare_trans (c ∷ s) [] u h k = cc
text_compare_trans (c ∷ s) (d ∷ t) [] h k = cc
text_compare_trans (c ∷ s) (d ∷ t) (e ∷ u) h k = ground (arith, text_compare_trans s t u)

pub text_compare-IsOrder : IsOrder text_compare
text_compare-IsOrder = record { flip = text_compare_flip; trans = text_compare_trans }

-- Texts that compare as equal are equal.
pub text_compare_eq : (s t : Text) → text_compare s t ≡ Ordering.eq → s ≡ t
unfolding text_compare
text_compare_eq [] [] h = refl
text_compare_eq [] (d ∷ t) h = cc
text_compare_eq (c ∷ s) [] h = cc
text_compare_eq (c ∷ s) (d ∷ t) h = ground (arith, text_compare_eq s t)

pub text_compare_refl : (s : Text) → text_compare s s ≡ Ordering.eq
unfolding text_compare
text_compare_refl [] = refl
text_compare_refl (c ∷ s) = ground (arith, text_compare_refl s)
