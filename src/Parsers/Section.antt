-- ===== src/Parsers/Section.antt =====
-- A section of a payload that begins with a count, as src/shi_parser.cpp and src/spi_parser.cpp read
-- them: one byte at the offset, then so many elements of a fixed size.
use native.Mathlib.Decide.{dec_lt, dec_le}
use afi920_ros2_driver.Base.{
  ltb, leb, if◌then◌else◌, lt→ltb, le→ltb, le→leb, lt→leb, length, get_or, Access, ok, ◌>>=◌,
  byte_at-ok, Safe, byte_at, ℕ, ◌+◌, ◌*◌, ◌≤◌, ◌<◌, ◌≡◌, List, arith,
}

-- `missing` is the result without the count, and `short` that without room for the elements.
unfoldable pub with_count {ℓ} : {A : Type ℓ} → List ℕ → ℕ → ℕ → A → A → (ℕ → Access A) → Access A
with_count p offset size missing short rest = if leb (length p) offset then ok missing else do
  declared ← byte_at p offset
  if ltb (length p) (offset + 1 + declared * size) then ok short else rest declared

module _ {A : Type 0} (P : A → Type 0) (p : List ℕ) (offset size : ℕ) (missing short : A)
    (rest : ℕ → Access A) where
  counted :
      offset < length p
      → with_count p offset size missing short rest ≡ (
          if ltb (length p) (offset + 1 + get_or p offset 0 * size)
          then ok short
          else rest (get_or p offset 0))
  unfolding with_count
  counted h = rw (lt→leb (length p) offset h, byte_at-ok p offset h)

  pub with_count-Safe :
      P missing
      → P short
      → ((n : ℕ) → offset + 1 + n * size ≤ length p → Safe P (rest n))
      → Safe P (with_count p offset size missing short rest)
  with_count-Safe m s k = elim (dec_lt offset (length p)) [
    | yes h ↦ rw (counted h) (fits (dec_le (offset + 1 + get_or p offset 0 * size) (length p)))
    | no h ↦ unfold with_count in rw (le→leb (length p) offset (omega arith)) m
  ]
    where
      fits :
          Dec (offset + 1 + get_or p offset 0 * size ≤ length p)
          → Safe P (
              if ltb (length p) (offset + 1 + get_or p offset 0 * size)
              then ok short
              else rest (get_or p offset 0))
      fits (yes h) =
          rw (le→ltb (length p) (offset + 1 + get_or p offset 0 * size) h) (k (get_or p offset 0) h)
      fits (no h) = rw (lt→ltb (length p) (offset + 1 + get_or p offset 0 * size) (omega arith)) s

pub with_count-eq {ℓ} :
    {A : Type ℓ} (p : List ℕ) (offset size n : ℕ) (missing short : A) (rest : ℕ → Access A)
    → offset < length p
    → get_or p offset 0 ≡ n
    → offset + 1 + n * size ≤ length p
    → with_count p offset size missing short rest ≡ rest n
unfolding with_count
with_count-eq p offset size n missing short rest h e f = rw (
  lt→leb (length p) offset h,
  byte_at-ok p offset h,
  e,
  le→ltb (length p) (offset + 1 + n * size) f,
)
