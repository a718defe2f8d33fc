-- ===== src/Node/Gate/Damaged.antt =====
-- A damaged payload does not pass the strict check.
use afi920_ros2_driver.E2e.{E2eHeader}
use afi920_ros2_driver.Wire.{IsByte}
use afi920_ros2_driver.Base.{All, ok, ℕ, ◌≡◌, ◌≢◌, inl, inr, true, none, some, List, ◌∷◌, ◌++◌}
use afi920_ros2_driver.E2e.Damage.{damaged}
use afi920_ros2_driver.Node.Gate.{consume_e2e_header, E2eHeader}
use afi920_ros2_driver.Node.Gate.Strict.{CrcOk, consume_strict_iff, consume-cases}

module _ (front back : List ℕ) (a b : ℕ) (bf : All IsByte front) (bb : All IsByte back)
    (ba : IsByte a) (bc : IsByte b) (ne : a ≢ b) (data_id : ℕ) where
  -- With validation on and strict, a payload of bytes passed. Then the payload in which one byte has
  -- another value, at any position, is refused, on every stream.
  pub consume_damaged :
      (r : List ℕ × E2eHeader) (other : ℕ)
      → consume_e2e_header true true (front ++ a ∷ back) data_id ≡ ok (some r)
      → consume_e2e_header true true (front ++ b ∷ back) other ≡ ok none
  consume_damaged r other e = elim (consume-cases (front ++ b ∷ back) other true true) [
    | inl refused ↦ refused
    | inr (_, passed) ↦ absurd (
        damaged front back a b bf bb ba bc ne sent_ok
          ((consume_strict_iff (front ++ b ∷ back) other _).0 passed).2)
  ]
    where
      sent_ok : CrcOk (front ++ a ∷ back)
      sent_ok = ((consume_strict_iff (front ++ a ∷ back) data_id r).0 e).2
