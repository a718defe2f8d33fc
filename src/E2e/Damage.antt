-- ===== src/E2e/Damage.antt =====
-- A frame that passed the check fails it once one of its bytes has changed, wherever that byte is.
use afi920_ros2_driver.Base.{
  length, drop, All, length-append, drop-append, drop-append_past, get_or-append, get_or-append_mid,
  All-append, All-drop, All-get_or, ok, ℕ, zero, suc, ◌+◌, ◌≤◌, ◌<◌, ◌≡◌, sym, ap, ◌∙◌, ◌≢◌, some,
  List, ◌∷◌, ◌++◌, arith,
}
use native.Mathlib.Decide.{dec_le}
use afi920_ros2_driver.Wire.{IsByte}
use afi920_ros2_driver.Wire.Total.{u8, AreBytes}
use afi920_ros2_driver.E2e.{
  E2eHeader, k_ok, k_crc_mismatch, e2e_header_size, e2e_crc64_xz, e2e_validate, join_be64,
}
use afi920_ros2_driver.E2e.Header.{be64, header_at, join_be64_sum}
use afi920_ros2_driver.E2e.Detect.{e2e_crc64_xz_detects}
use afi920_ros2_driver.E2e.Protect.{verdict-eq_ok, verdict_mismatch, e2e_validate-verdict}

abbrev Leading : List ℕ → Type 0
Leading p = AreBytes (u8 p 0) (u8 p 1) (u8 p 2) (u8 p 3) (u8 p 4) (u8 p 5) (u8 p 6) (u8 p 7)

Leading-IsByte : (p : List ℕ) → All IsByte p → Leading p
Leading-IsByte p b =
    let byte = λ (i : ℕ). All-get_or IsByte p i 0 b (omega arith) in
    (byte 0, byte 1, byte 2, byte 3, byte 4, byte 5, byte 6, byte 7)

-- A number of 64 bits determines its bytes.
bytes_determined :
    (a b c d e f g h a' b' c' d' e' f' g' h' : ℕ)
    → AreBytes a b c d e f g h
    → AreBytes a' b' c' d' e' f' g' h'
    → join_be64 a b c d e f g h ≡ join_be64 a' b' c' d' e' f' g' h'
    → (a ≡ a') × (b ≡ b') × (c ≡ c') × (d ≡ d') × (e ≡ e') × (f ≡ f') × (g ≡ g') × (h ≡ h')
bytes_determined a b c d e f g h a' b' c' d' e' f' g' h' l r eq =
    let same =
      sym (join_be64_sum a b c d e f g h l) ∙ eq ∙ join_be64_sum a' b' c' d' e' f' g' h' r in
    (
      omega arith,
      omega arith,
      omega arith,
      omega arith,
      omega arith,
      omega arith,
      omega arith,
      omega arith,
    )

-- Equal CRC fields have equal bytes.
be64-injective :
    (p q : List ℕ) (i : ℕ) → All IsByte p → All IsByte q → be64 p ≡ be64 q → i < 8 → u8 p i ≡ u8 q i
be64-injective p q i bp bq e h = pick i h
  where
    same :
        (u8 p 0 ≡ u8 q 0)
        × (u8 p 1 ≡ u8 q 1)
        × (u8 p 2 ≡ u8 q 2)
        × (u8 p 3 ≡ u8 q 3)
        × (u8 p 4 ≡ u8 q 4)
        × (u8 p 5 ≡ u8 q 5)
        × (u8 p 6 ≡ u8 q 6)
        × (u8 p 7 ≡ u8 q 7)
    same =
        bytes_determined _ _ _ _ _ _ _ _ _ _ _ _ _ _ _ _ (Leading-IsByte p bp) (Leading-IsByte q bq)
          e

    pick : (i : ℕ) → i < 8 → u8 p i ≡ u8 q i
    pick zero h = same.0
    pick (suc zero) h = same.1
    pick (suc (suc zero)) h = same.2
    pick (suc (suc (suc zero))) h = same.3
    pick (suc (suc (suc (suc zero)))) h = same.4
    pick (suc (suc (suc (suc (suc zero))))) h = same.5
    pick (suc (suc (suc (suc (suc (suc zero)))))) h = same.6
    pick (suc (suc (suc (suc (suc (suc (suc zero))))))) h = same.7
    pick (suc (suc (suc (suc (suc (suc (suc (suc n)))))))) h = absurd (omega arith)

-- The CRC field does not depend on what lies behind it.
be64-append : (front xs : List ℕ) → 8 ≤ length front → be64 (front ++ xs) ≡ be64 front
be64-append front xs h = rw (
  get_or-append front xs 0 0 (omega arith),
  get_or-append front xs 1 0 (omega arith),
  get_or-append front xs 2 0 (omega arith),
  get_or-append front xs 3 0 (omega arith),
  get_or-append front xs 4 0 (omega arith),
  get_or-append front xs 5 0 (omega arith),
  get_or-append front xs 6 0 (omega arith),
  get_or-append front xs 7 0 (omega arith),
)

module _ (front back : List ℕ) (a b : ℕ) (hf : All IsByte front) (hk : All IsByte back)
    (ha : IsByte a) (hb : IsByte b) (ne : a ≢ b) where
  abbrev sent : List ℕ
  sent = front ++ a ∷ back

  abbrev received : List ℕ
  received = front ++ b ∷ back

  -- The damage lies behind the CRC field: the CRC changes and the field stays.
  damaged_behind :
      8 ≤ length front
      → e2e_crc64_xz (some (drop 8 sent)) ≡ be64 sent
      → e2e_crc64_xz (some (drop 8 received)) ≢ be64 received
  damaged_behind h e e' =
      e2e_crc64_xz_detects (drop 8 front) back a b (All-drop IsByte 8 front hf) hk ha hb ne (
        ap (λ (l : List ℕ). e2e_crc64_xz (some l)) (sym (drop-append 8 front (a ∷ back) h))
        ∙ e
        ∙ be64-append front (a ∷ back) h
        ∙ sym (be64-append front (b ∷ back) h)
        ∙ sym e'
        ∙ ap (λ (l : List ℕ). e2e_crc64_xz (some l)) (drop-append 8 front (b ∷ back) h))

  -- The damage lies in the CRC field: the field changes and the CRC stays.
  damaged_field :
      length front < 8
      → e2e_crc64_xz (some (drop 8 sent)) ≡ be64 sent
      → e2e_crc64_xz (some (drop 8 received)) ≢ be64 received
  damaged_field h e e' = ne (
      sym (get_or-append_mid front back a 0)
      ∙ be64-injective sent received (length front) (All-append IsByte front (a ∷ back) hf (ha, hk))
          (All-append IsByte front (b ∷ back) hf (hb, hk))
          (sym e
            ∙ ap (λ (l : List ℕ). e2e_crc64_xz (some l))
                (drop-append_past 8 front back a h ∙ sym (drop-append_past 8 front back b h))
            ∙ e')
          h
      ∙ get_or-append_mid front back b 0)

  pub damaged :
      e2e_crc64_xz (some (drop 8 sent)) ≡ be64 sent
      → e2e_crc64_xz (some (drop 8 received)) ≢ be64 received
  damaged e = elim (dec_le 8 (length front)) [
    | yes h ↦ damaged_behind h e
    | no h ↦ damaged_field (omega arith) e
  ]

  -- If a frame of bytes passes the check, then the frame in which one byte has another value, at
  -- any position, is reported as a CRC mismatch.
  pub e2e_validate-damaged :
      (out header : E2eHeader)
      → e2e_header_size ≤ length front + suc (length back)
      → e2e_validate (some (front ++ a ∷ back)) out ≡ ok (k_ok, header)
      → e2e_validate (some (front ++ b ∷ back)) out
        ≡ ok (k_crc_mismatch, header_at (front ++ b ∷ back))
  e2e_validate-damaged out header h e =
      e2e_validate-verdict received out (omega (arith, length-append front (b ∷ back)))
      ∙ ap ok (verdict_mismatch _ (header_at received) (damaged passed))
    where
      passed : e2e_crc64_xz (some (drop 8 sent)) ≡ be64 sent
      passed =
          verdict-eq_ok _ (header_at sent) header (
            sym (e2e_validate-verdict sent out (omega (arith, length-append front (a ∷ back)))) ∙ e)
