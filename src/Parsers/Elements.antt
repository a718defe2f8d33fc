-- ===== src/Parsers/Elements.antt =====
-- The loops of src/spi_parser.cpp over the elements of a section.
pub mod Read
use afi920_ros2_driver.Base.{
  ltb, if◌then◌else◌, lt→ltb, le→ltb, length, drop, length-drop, Access, ok, fault, ◌>>=◌, Safe,
  Safe-bind, ℕ, zero, suc, ◌+◌, ◌*◌, ◌≤◌, ◌<◌, ◌≡◌, refl, ap, subst, List, [], ◌∷◌, arith,
}
use native.Mathlib.Decide.{dec_lt}

-- `a[i] = x`
unfoldable pub store_at {ℓ} : {A : Type ℓ} → List A → ℕ → A → Access (List A)
store_at [] i x = fault
store_at (y ∷ a) zero x = ok (x ∷ a)
store_at (y ∷ a) (suc i) x = store_at a i x >>= λ b. ok (y ∷ b)

-- The rounds that are left, from element `i` at `offset` on; only the first `n` elements are stored.
unfoldable pub parse_elements {ℓ} :
    {A : Type ℓ} → (List ℕ → Access A) → List ℕ → ℕ → ℕ → ℕ → ℕ → ℕ → List A → Access (List A)
parse_elements read p size n zero i offset a = ok a
parse_elements read p size n (suc rounds) i offset a =
    let stored = if ltb i n then (read (drop offset p) >>= λ x. store_at a i x) else ok a in
    stored >>= parse_elements read p size n rounds (i + 1) (offset + size)

module _ {A : Type 0} where
  store_at_size :
      (a : List A) (i : ℕ) (x : A)
      → i < length a
      → Safe (λ (b : List A). length b ≡ length a) (store_at a i x)
  unfolding store_at
  store_at_size [] i x h = absurd (omega arith)
  store_at_size (y ∷ a) zero x h = refl
  store_at_size (y ∷ a) (suc i) x h =
      Safe-bind (λ (b : List A). length b ≡ length a) (λ (b : List A). length b ≡ suc (length a))
        (store_at a i x) _ (store_at_size a i x (omega arith)) (λ b e. ap suc e)

  module _ (read : List ℕ → Access A) (p : List ℕ) (size n m : ℕ)
      (readable : (q : List ℕ) → size ≤ length q → Safe (λ _. Unit {0}) (read q))
      (fits : n ≤ m) where
    abbrev Sized : List A → Type 0
    Sized a = length a ≡ m

    stored_size :
        (i offset : ℕ) (a : List A)
        → offset + size ≤ length p
        → Sized a
        → Safe Sized (if ltb i n then (read (drop offset p) >>= λ x. store_at a i x) else ok a)
    stored_size i offset a h e = elim (dec_lt i n) [
      | yes l ↦ rw (lt→ltb i n l) (
          Safe-bind (λ _. Unit {0}) Sized (read (drop offset p)) _
            (readable (drop offset p) (omega (arith, length-drop {0} offset p)))
            (λ x _.
              subst (λ (k : ℕ). Safe (λ (b : List A). length b ≡ k) (store_at a i x)) e
                (store_at_size a i x (omega arith))))
      | no l ↦ rw (le→ltb i n (omega arith)) e
    ]

    pub parse_elements_size :
        (rounds i offset : ℕ) (a : List A)
        → offset + rounds * size ≤ length p
        → Sized a
        → Safe Sized (parse_elements read p size n rounds i offset a)
    unfolding parse_elements
    parse_elements_size zero i offset a h e = e
    parse_elements_size (suc rounds) i offset a h e =
        Safe-bind Sized Sized _ _ (stored_size i offset a (grind arith) e)
          (λ b eb. parse_elements_size rounds (i + 1) (offset + size) b (grind arith) eb)
