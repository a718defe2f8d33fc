-- ===== src/Parsers/At.antt =====
-- What stands at an offset of a payload, which the read-back theorems of the parsers carry along.
use afi920_ros2_driver.Base.{
  length, get_or, drop, length-drop, drop-append_length, drop-drop, ℕ, zero, suc, ◌+◌, ◌<◌, ◌≡◌,
  refl, sym, ap, ◌∙◌, List, [], ◌∷◌, ◌++◌, arith,
}

get_or-drop_front : (p : List ℕ) (k : ℕ) → get_or p k 0 ≡ get_or (drop k p) 0 0
get_or-drop_front [] zero = refl
get_or-drop_front [] (suc k) = refl
get_or-drop_front (y ∷ p) zero = refl
get_or-drop_front (y ∷ p) (suc k) = get_or-drop_front p k

-- What stands at an offset: its first byte, and what follows it or a list at its front.
pub at_cons :
    (p : List ℕ) (k x : ℕ) (t : List ℕ)
    → drop k p ≡ x ∷ t
    → (k < length p) × (get_or p k 0 ≡ x) × (drop (k + 1) p ≡ t)
at_cons p k x t e = (
  omega (arith, length-drop {0} k p, ap (λ (l : List ℕ). length l) e),
  get_or-drop_front p k ∙ ap (λ (l : List ℕ). get_or l 0 0) e,
  drop-drop k 1 p ∙ ap (λ (l : List ℕ). drop 1 l) e,
)

pub at_append :
    (p : List ℕ) (k n : ℕ) (a t : List ℕ) → drop k p ≡ a ++ t → length a ≡ n → drop (k + n) p ≡ t
at_append p k n a t e c =
    ap (λ (j : ℕ). drop (k + j) p) (sym c)
    ∙ drop-drop k (length a) p
    ∙ ap (λ (l : List ℕ). drop (length a) l) e
    ∙ drop-append_length a t
