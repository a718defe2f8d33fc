-- ===== src/Node/Gate/Strict.antt =====
-- What passes the check of the E2E header.
use afi920_ros2_driver.Wire.{IsByte}
use afi920_ros2_driver.Base.{
  ◌==◌, ◌!=◌, if◌then◌else◌, lt→ltb, le→ltb, ==_iff, length, drop, All, Access, ok, ℕ, ◌-◌, ◌^◌,
  ◌≤◌, ◌<◌, ◌≡◌, refl, sym, ap, ◌∙◌, ◌≢◌, ◌↔◌, ◌⊎◌, inl, inr, Bool, true, false, not, ◌&&◌, Option,
  none, some, List, arith,
}
use native.Mathlib.Decide.{dec_le}
use afi920_ros2_driver.E2e.{
  k_ok, k_crc_mismatch, E2eStatus, e2e_header_size, e2e_crc64_xz, E2eHeader, e2e_offset_length,
  e2e_header_init,
}
use afi920_ros2_driver.E2e.Header.{header_at, e2e_parse-ok}
use afi920_ros2_driver.E2e.Protect.{
  protect, protect_size, length-protect, drop-protect, payload-protect, protected_header, header_of,
  e2e_validate-verdict,
}
use afi920_ros2_driver.Node.Gate.{is_too_short, is_crc_mismatch, e2e_status, consume_e2e_header}

-- The status of a payload that has room for the header.
abbrev pub status_of : Bool → List ℕ → E2eStatus
status_of true p =
    if e2e_crc64_xz (some (drop e2e_offset_length p)) == (header_at p).crc
    then k_ok
    else k_crc_mismatch
status_of false p = k_ok

e2e_status-ok :
    (validate : Bool) (p : List ℕ)
    → e2e_header_size ≤ length p
    → e2e_status validate p ≡ ok (status_of validate p, header_at p)
unfolding e2e_status
e2e_status-ok true p h = e2e_validate-verdict p e2e_header_init h
e2e_status-ok false p h = rw (e2e_parse-ok p e2e_header_init h)

-- The length field and the data id are the ones that the frame should have.
abbrev pub MetadataOk : List ℕ → ℕ → Type 0
MetadataOk p data_id =
    ((header_at p).length ≡ length p - e2e_header_size) × ((header_at p).data_id ≡ data_id)

abbrev pub CrcOk : List ℕ → Type 0
CrcOk p = e2e_crc64_xz (some (drop e2e_offset_length p)) ≡ (header_at p).crc

abbrev pub passed : List ℕ → Access (Option (List ℕ × E2eHeader))
passed p = ok (some (drop e2e_header_size p, header_at p))

-- What is decided on a status and a header.
abbrev judged : E2eStatus → E2eHeader → Bool → List ℕ → ℕ → Access (Option (List ℕ × E2eHeader))
unfolding is_too_short is_crc_mismatch
judged status e2e strict p data_id =
    if is_too_short status
    then ok none
    else (if is_crc_mismatch status && strict
        then ok none
        else (if not (
                if e2e.data_id != data_id
                then false
                else (if e2e.length != length p - e2e_header_size then false else true))
              && strict
            then ok none
            else ok (some (drop e2e_header_size p, e2e))))

judged_relaxed :
    (v : Bool) (p : List ℕ) (e2e : E2eHeader) (data_id : ℕ)
    → judged (status_of v p) e2e false p data_id ≡ ok (some (drop e2e_header_size p, e2e))
unfolding is_too_short is_crc_mismatch
judged_relaxed true p e2e data_id = ground arith
judged_relaxed false p e2e data_id = ground arith

judged-passed :
    (v : Bool) (p : List ℕ) (data_id : ℕ)
    → status_of v p ≡ k_ok
    → MetadataOk p data_id
    → judged (status_of v p) (header_at p) true p data_id ≡ passed p
unfolding is_too_short is_crc_mismatch
judged-passed v p data_id e m = rw e (ground arith)

judged_strict :
    (p : List ℕ) (data_id : ℕ) (r : List ℕ × E2eHeader)
    → judged (status_of true p) (header_at p) true p data_id ≡ ok (some r)
    → MetadataOk p data_id × CrcOk p × (r ≡ (drop e2e_header_size p, header_at p))
unfolding is_too_short is_crc_mismatch
judged_strict p data_id r e = ground arith

refused-cases {ℓ} :
    {A : Type ℓ} {x : A} {P : Type 0} (a b c : Bool)
    → P
    → ((if a then ok none else (if b then ok none else (if c then ok none else ok (some x))))
        ≡ ok none)
      ⊎ (P
          × ((if a then ok none else (if b then ok none else (if c then ok none else ok (some x))))
              ≡ ok (some x)))
refused-cases true b c h = inl refl
refused-cases false true c h = inl refl
refused-cases false false true h = inl refl
refused-cases false false false h = inr (h, refl)

judged-cases :
    (v strict : Bool) (p : List ℕ) (data_id : ℕ)
    → e2e_header_size ≤ length p
    → (judged (status_of v p) (header_at p) strict p data_id ≡ ok none)
      ⊎ ((e2e_header_size ≤ length p)
          × (judged (status_of v p) (header_at p) strict p data_id ≡ passed p))
unfolding is_too_short is_crc_mismatch
judged-cases v strict p data_id h =
    refused-cases (is_too_short (status_of v p)) (is_crc_mismatch (status_of v p) && strict) _ h

module _ (p : List ℕ) (data_id : ℕ) where
  consume_short :
      (validate strict : Bool)
      → length p < e2e_header_size
      → consume_e2e_header validate strict p data_id ≡ ok none
  unfolding consume_e2e_header
  consume_short validate strict h = rw (lt→ltb (length p) e2e_header_size h)

  consume-judged :
      (validate strict : Bool)
      → e2e_header_size ≤ length p
      → consume_e2e_header validate strict p data_id
        ≡ judged (status_of validate p) (header_at p) strict p data_id
  unfolding consume_e2e_header
  consume-judged validate strict h =
      rw (le→ltb (length p) e2e_header_size h, e2e_status-ok validate p h)

  -- Where the driver is not strict, everything that has room for the header passes.
  pub consume_relaxed :
      (validate : Bool)
      → e2e_header_size ≤ length p
      → consume_e2e_header validate false p data_id ≡ passed p
  consume_relaxed validate h =
      consume-judged validate false h ∙ judged_relaxed validate p (header_at p) data_id

  consume_strict_passed :
      e2e_header_size ≤ length p
      → MetadataOk p data_id
      → CrcOk p
      → consume_e2e_header true true p data_id ≡ passed p
  consume_strict_passed h m c =
      consume-judged true true h ∙ judged-passed true p data_id (rw ((==_iff _ _).1 c)) m

  consume_passed :
      (validate strict : Bool)
      → e2e_header_size ≤ length p
      → MetadataOk p data_id
      → CrcOk p
      → consume_e2e_header validate strict p data_id ≡ passed p
  consume_passed validate false h m c = consume_relaxed validate h
  consume_passed true true h m c = consume_strict_passed h m c
  consume_passed false true h m c =
      consume-judged false true h ∙ judged-passed false p data_id refl m

  -- With validation on and strict, exactly those payloads pass that have room for the header, whose
  -- CRC is that of what follows it, whose length field counts the bytes after the header, and whose
  -- data id is the stream's; what is handed on are those bytes and that header.
  pub consume_strict_iff :
      (r : List ℕ × E2eHeader)
      → (consume_e2e_header true true p data_id ≡ ok (some r)) ↔ (
          (e2e_header_size ≤ length p)
          × MetadataOk p data_id
          × CrcOk p
          × (r ≡ (drop e2e_header_size p, header_at p)))
  consume_strict_iff r = (
    λ e. elim (dec_le e2e_header_size (length p)) [
      | yes h ↦
          let (m, c, q) = judged_strict p data_id r (sym (consume-judged true true h) ∙ e) in
          (h, m, c, q)
      | no h ↦ absurd (none-ne (sym (consume_short true true (omega arith)) ∙ e))
    ],
    λ (h, m, c, e). consume_strict_passed h m c ∙ (λ i. ok (some (sym e i))),
  )
    where
      none-ne : ok none ≢ ok (some r)
      none-ne = λ e. cc

  -- Whatever the flags, the check reads no byte past the payload, and what it lets through is the
  -- payload without its first 20 bytes.
  pub consume-cases :
      (validate strict : Bool)
      → (consume_e2e_header validate strict p data_id ≡ ok none)
        ⊎ ((e2e_header_size ≤ length p) × (consume_e2e_header validate strict p data_id ≡ passed p))
  consume-cases validate strict = elim (dec_le e2e_header_size (length p)) [
    | no h ↦ inl (consume_short validate strict (omega arith))
    | yes h ↦ rw (consume-judged validate strict h) (judged-cases validate strict p data_id h)
  ]

-- A payload of bytes that a sender protects by the profile with the data id of the stream passes,
-- whatever the flags, and comes out of the check as it was, with the header that was sent.
pub consume-protect :
    (validate strict : Bool) (counter data_id : ℕ) (iso : List ℕ)
    → counter < 2 ^ 32
    → data_id < 2 ^ 32
    → length iso < 2 ^ 32
    → All IsByte iso
    → consume_e2e_header validate strict (protect counter data_id iso) data_id
      ≡ ok (some (iso, header_of counter data_id iso))
consume-protect validate strict counter data_id iso hc hd hl hb =
    consume_passed sent data_id validate strict (protect_size counter data_id iso)
      (
        ap (λ (e : E2eHeader). e.length) header ∙ omega (arith, length-protect counter data_id iso),
        ap (λ (e : E2eHeader). e.data_id) header,
      )
      (ap (λ (l : List ℕ). e2e_crc64_xz (some l)) (drop-protect counter data_id iso)
        ∙ ap (λ (e : E2eHeader). e.crc) (sym header))
    ∙ (λ i. ok (some (payload-protect counter data_id iso i, header i)))
  where
    sent : List ℕ
    sent = protect counter data_id iso

    header : header_at sent ≡ header_of counter data_id iso
    header = protected_header counter data_id iso hc hd hl hb
