-- ===== src/E2e/Crc.antt =====
-- The CRC-64/XZ loop: it composes over concatenation, stays within 64 bits and loses nothing.
use afi920_ros2_driver.Base.{
  All, ℕ, zero, suc, ◌/◌, ◌%◌, ◌^◌, ◌≤◌, ◌<◌, bit_xor, ◌≡◌, refl, sym, ◌⊎◌, inl, inr, some, List,
  [], ◌∷◌, ◌++◌, arith,
}
use afi920_ros2_driver.Base.Bits.{bit_and-ones, bit_xor-lt, le-bit_xor, bit_xor_cancel}
use afi920_ros2_driver.Wire.{IsByte}
use afi920_ros2_driver.E2e.{
  crc_bit, crc_bits, crc_bytes, e2e_crc64_xz_update, e2e_crc64_xz, reflected_poly, e2e_crc64_init,
}

abbrev pub IsU64 : ℕ → Type 0
IsU64 x = x < 2 ^ 64

crc_bit-cases :
    (x : ℕ)
    → ((x % 2 ≡ 1) × (crc_bit x ≡ bit_xor (x / 2) reflected_poly))
      ⊎ ((x % 2 ≡ 0) × (crc_bit x ≡ x / 2))
unfolding crc_bit
crc_bit-cases x = ground (arith, bit_and-ones 1 x)

pub crc_bit-lt : (x : ℕ) → IsU64 x → IsU64 (crc_bit x)
crc_bit-lt x h = elim (crc_bit-cases x) [
  | inl (_, e) ↦ rw e (bit_xor-lt 64 (x / 2) reflected_poly (omega arith) (omega arith))
  | inr (_, e) ↦ rw e (omega arith)
]

-- The polynomial has its top bit, so the top bit of the result tells whether it was added.
crc_bit_top : (x : ℕ) → IsU64 x → x % 2 ≡ 1 → 2 ^ 63 ≤ crc_bit x
crc_bit_top x h odd = elim (crc_bit-cases x) [
  | inl (_, e) ↦ rw e (le-bit_xor 63 (x / 2) reflected_poly (omega arith) (omega arith))
  | inr (even, _) ↦ absurd (omega arith)
]

-- One round can be undone.
crc_bit-injective : (x y : ℕ) → IsU64 x → IsU64 y → crc_bit x ≡ crc_bit y → x ≡ y
crc_bit-injective x y hx hy e = both (crc_bit-cases x) (crc_bit-cases y)
  where
    both :
        ((x % 2 ≡ 1) × (crc_bit x ≡ bit_xor (x / 2) reflected_poly))
          ⊎ ((x % 2 ≡ 0) × (crc_bit x ≡ x / 2))
        → ((y % 2 ≡ 1) × (crc_bit y ≡ bit_xor (y / 2) reflected_poly))
          ⊎ ((y % 2 ≡ 0) × (crc_bit y ≡ y / 2))
        → x ≡ y
    both (inl (ox, ex)) (inl (oy, ey)) = omega (
      arith,
      bit_xor_cancel 64 (x / 2) (y / 2) reflected_poly (omega arith) (omega arith) (omega arith),
    )
    both (inl (ox, ex)) (inr (oy, ey)) = absurd (omega (arith, crc_bit_top x hx ox))
    both (inr (ox, ex)) (inl (oy, ey)) = absurd (omega (arith, crc_bit_top y hy oy))
    both (inr (ox, ex)) (inr (oy, ey)) = omega arith

pub crc_bits-lt : (n x : ℕ) → IsU64 x → IsU64 (crc_bits n x)
unfolding crc_bits
crc_bits-lt zero x h = h
crc_bits-lt (suc n) x h = crc_bits-lt n (crc_bit x) (crc_bit-lt x h)

pub crc_bits-injective : (n x y : ℕ) → IsU64 x → IsU64 y → crc_bits n x ≡ crc_bits n y → x ≡ y
unfolding crc_bits
crc_bits-injective zero x y hx hy e = e
crc_bits-injective (suc n) x y hx hy e =
    crc_bit-injective x y hx hy
      (crc_bits-injective n (crc_bit x) (crc_bit y) (crc_bit-lt x hx) (crc_bit-lt y hy) e)

-- One round of the loop over the bytes.
abbrev pub next : ℕ → ℕ → ℕ
next crc x = crc_bits 8 (bit_xor crc x)

pub next-lt : (crc x : ℕ) → IsU64 crc → IsByte x → IsU64 (next crc x)
next-lt crc x h hx = crc_bits-lt 8 _ (bit_xor-lt 64 crc x h (omega arith))

pub crc_bytes-lt : (crc : ℕ) (xs : List ℕ) → IsU64 crc → All IsByte xs → IsU64 (crc_bytes crc xs)
unfolding crc_bytes
crc_bytes-lt crc [] h b = h
crc_bytes-lt crc (x ∷ xs) h b = crc_bytes-lt (next crc x) xs (next-lt crc x h b.0) b.1

-- Equal results over the same bytes come from equal starts.
pub crc_bytes-injective :
    (x y : ℕ) (xs : List ℕ)
    → IsU64 x
    → IsU64 y
    → All IsByte xs
    → crc_bytes x xs ≡ crc_bytes y xs
    → x ≡ y
unfolding crc_bytes
crc_bytes-injective x y [] hx hy b e = e
crc_bytes-injective x y (z ∷ zs) hx hy b e = bit_xor_cancel 64 x y z hx hy (
    crc_bits-injective 8 _ _ (bit_xor-lt 64 x z hx (omega arith))
      (bit_xor-lt 64 y z hy (omega arith))
      (crc_bytes-injective (next x z) (next y z) zs (next-lt x z hx b.0) (next-lt y z hy b.0) b.1
        e))

pub crc_bytes-append :
    (crc : ℕ) (xs ys : List ℕ) → crc_bytes crc (xs ++ ys) ≡ crc_bytes (crc_bytes crc xs) ys
unfolding crc_bytes
crc_bytes-append crc [] ys = refl
crc_bytes-append crc (x ∷ xs) ys = crc_bytes-append (next crc x) xs ys

pub e2e_crc64_xz-lt : (xs : List ℕ) → All IsByte xs → IsU64 (e2e_crc64_xz (some xs))
unfolding e2e_crc64_xz e2e_crc64_xz_update
e2e_crc64_xz-lt xs b =
    bit_xor-lt 64 _ _ (crc_bytes-lt e2e_crc64_init xs (omega arith) b) (omega arith)

-- Updating with two pieces one after the other is updating with their concatenation, so the CRC may
-- be computed piecewise; and a CRC of bytes fits in 64 bits.
pub e2e_crc64_xz_update_pieces :
    (crc : ℕ) (xs ys : List ℕ)
    → IsU64 crc
    → All IsByte xs
    → (e2e_crc64_xz_update (e2e_crc64_xz_update crc (some xs)) (some ys)
        ≡ e2e_crc64_xz_update crc (some (xs ++ ys)))
      × IsU64 (e2e_crc64_xz_update crc (some xs))
      × IsU64 (e2e_crc64_xz (some xs))
unfolding e2e_crc64_xz_update e2e_crc64_xz
e2e_crc64_xz_update_pieces crc xs ys h b =
    (sym (crc_bytes-append crc xs ys), crc_bytes-lt crc xs h b, e2e_crc64_xz-lt xs b)
