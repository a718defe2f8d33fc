-- ===== src/Parsers/Shi/Sections.antt =====
-- The SHII parser section by section, on a payload with the section at the offset.
use afi920_ros2_driver.Base.{
  le→ltb, lt→leb, pos, length, get_or, take, drop, length-append, length-drop, ok, byte_at-ok,
  memcpy, memcpy-ok, length-memcpy, ℕ, zero, suc, ◌+◌, ◌≤◌, min, max, ◌≡◌, refl, sym, ap, ◌∙◌, List,
  [], ◌∷◌, ◌++◌, arith,
}
use afi920_ros2_driver.Parsers.ShiTypes.{
  ShiMessage, shi_max_calibration_components, shi_max_input_signals, shi_max_operation_modes,
}
use afi920_ros2_driver.Parsers.At.{at_cons, at_append}
use afi920_ros2_driver.Parsers.Section.{with_count-eq}
use afi920_ros2_driver.Parsers.Shi.{
  parse_calibration, parse_time_sync, parse_input_signals, parse_status, parse_operation_modes,
  ShiMessage, shi_max_calibration_components, shi_max_input_signals, shi_max_operation_modes,
}
use afi920_ros2_driver.Parsers.Shi.Total.{IsShi}

take-append : (n : ℕ) (xs ys : List ℕ) → n ≤ length xs → take n (xs ++ ys) ≡ take n xs
take-append zero xs ys h = refl
take-append (suc n) [] ys h = absurd (omega arith)
take-append (suc n) (x ∷ xs) ys h = ap (λ (l : List ℕ). x ∷ l) (take-append n xs ys (omega arith))

-- An array after the first elements, as many as it holds, were copied into it.
abbrev pub filled : ℕ → List ℕ → List ℕ → List ℕ
filled max old xs = take (min (length xs) max) xs ++ drop (min (length xs) max) old

pub length-filled :
    (max : ℕ) (old xs : List ℕ) → length old ≡ max → length (filled max old xs) ≡ max
length-filled max old xs e =
    length-memcpy old xs (min (length xs) max) (omega arith) (omega arith) ∙ e

memcpy_at :
    (p : List ℕ) (k m n : ℕ) (old a t : List ℕ)
    → drop k p ≡ a ++ t
    → length old ≡ m
    → length a ≡ n
    → memcpy old (drop k p) (min n m) ≡ ok (filled m old a)
memcpy_at p k m n old a t e size count =
    ap (λ (l : List ℕ). memcpy old l (min n m)) e
    ∙ (let c : n ≡ length a = sym count in ap (λ (j : ℕ). memcpy old (a ++ t) (min j m)) c)
    ∙ memcpy-ok old (a ++ t) (min (length a) m) (omega (arith, length-append a t)) (omega arith)
    ∙ ap (λ (l : List ℕ). ok (l ++ drop (min (length a) m) old))
        (take-append (min (length a) m) a t (omega arith))

module _ (p : List ℕ) (offset : ℕ) (msg : ShiMessage) (v : IsShi msg) where
  pub parse_calibration-read :
      (a b c t : List ℕ)
      → drop offset p ≡ length a ∷ (a ++ (b ++ (c ++ t)))
      → length b ≡ length a
      → length c ≡ length a
      → parse_calibration p offset msg
        ≡ ok (
          pos 0,
          record msg {
            num_valid_calibration_components = min (length a) shi_max_calibration_components;
            sensor_calibration_components =
                filled shi_max_calibration_components msg.sensor_calibration_components a;
            sensor_calibration_statuses =
                filled shi_max_calibration_components msg.sensor_calibration_statuses b;
            sensor_calibration_states =
                filled shi_max_calibration_components msg.sensor_calibration_states c;
          },
        )
  unfolding parse_calibration
  parse_calibration-read a b c t e eb ec =
      let (here, first, ea) = at_cons p offset (length a) _ e in
      let e1 = at_append p (offset + 1) (length a) a _ ea refl in
      let e2 = at_append p (offset + 1 + length a) (length a) b (c ++ t) e1 eb in
      with_count-eq p offset 3 (length a) _ _ _ here first (
        omega (
          arith,
          length-drop {0} offset p,
          ap (λ (l : List ℕ). length l) e,
          length-append a (b ++ (c ++ t)),
          length-append b (c ++ t),
          length-append c t,
        ))
      ∙ rw (
        memcpy_at p (offset + 1) shi_max_calibration_components (length a)
            msg.sensor_calibration_components a _ ea v.components_size refl,
        memcpy_at p (offset + 1 + length a) shi_max_calibration_components (length a)
            msg.sensor_calibration_statuses b _ e1 v.calibrations_size eb,
        memcpy_at p (offset + 1 + length a + length a) shi_max_calibration_components (length a)
            msg.sensor_calibration_states c t e2 v.states_size ec,
      )

  pub parse_time_sync-read :
      (sync : ℕ) (t : List ℕ)
      → drop offset p ≡ sync ∷ t
      → parse_time_sync p offset msg
        ≡ parse_calibration p
            (offset + 1)
            (record msg { sensor_time_sync = sync; sensor_time_sync_offset_value = 0 })
  unfolding parse_time_sync
  parse_time_sync-read sync t e =
      let (here, first, _) = at_cons p offset sync t e in
      rw (lt→leb (length p) offset here, byte_at-ok p offset here, first)

  pub parse_input_signals-read :
      (a b t : List ℕ)
      → drop offset p ≡ length a ∷ (a ++ (b ++ t))
      → length b ≡ length a
      → parse_input_signals p offset msg
        ≡ parse_time_sync p (offset + 1 + length a + length a) (record msg {
          num_valid_input_signal_statuses = min (length a) shi_max_input_signals;
          sensor_input_signal_types = filled shi_max_input_signals msg.sensor_input_signal_types a;
          sensor_input_signal_statuses =
              filled shi_max_input_signals msg.sensor_input_signal_statuses b;
        })
  unfolding parse_input_signals
  parse_input_signals-read a b t e eb =
      let (here, first, ea) = at_cons p offset (length a) _ e in
      let e1 = at_append p (offset + 1) (length a) a _ ea refl in
      with_count-eq p offset 2 (length a) _ _ _ here first (
        omega (
          arith,
          length-drop {0} offset p,
          ap (λ (l : List ℕ). length l) e,
          length-append a (b ++ t),
          length-append b t,
        ))
      ∙ rw (
        memcpy_at p (offset + 1) shi_max_input_signals (length a) msg.sensor_input_signal_types a _
            ea v.types_size refl,
        memcpy_at p (offset + 1 + length a) shi_max_input_signals (length a)
            msg.sensor_input_signal_statuses b t e1 v.statuses_size eb,
      )

  pub parse_status-read :
      (recognised reason voltage temperature : ℕ) (t : List ℕ)
      → drop offset p ≡ recognised ∷ reason ∷ voltage ∷ temperature ∷ t
      → parse_status p offset msg
        ≡ parse_input_signals p (offset + 4) (record msg {
          sensor_defect_recognised = recognised;
          sensor_defect_reason = reason;
          supply_voltage_status = voltage;
          sensor_temperature_status = temperature;
        })
  unfolding parse_status
  parse_status-read recognised reason voltage temperature t e =
      let (h0, f0, e0) = at_cons p offset recognised _ e in
      let (h1, f1, e1) = at_cons p (offset + 1) reason _ e0 in
      let (h2, f2, e2) = at_cons p (offset + 1 + 1) voltage _ e1 in
      let (h3, f3, e3) = at_cons p (offset + 1 + 1 + 1) temperature _ e2 in
      let s2 : offset + 1 + 1 ≡ offset + 2 = omega arith in
      let s3 : offset + 1 + 1 + 1 ≡ offset + 3 = omega arith in
      rw (
        le→ltb (length p) (offset + 4) (omega arith),
        byte_at-ok p offset h0,
        byte_at-ok p (offset + 1) h1,
        byte_at-ok p (offset + 2) (omega arith),
        byte_at-ok p (offset + 3) (omega arith),
        f0,
        f1,
        ap (λ (k : ℕ). get_or p k 0) (sym s2) ∙ f2,
        ap (λ (k : ℕ). get_or p k 0) (sym s3) ∙ f3,
      )

  pub parse_operation_modes-read :
      (a t : List ℕ)
      → drop offset p ≡ length a ∷ (a ++ t)
      → parse_operation_modes p offset msg
        ≡ parse_status p (offset + 1 + length a) (record msg {
          num_valid_operation_modes = min (length a) shi_max_operation_modes;
          sensor_operation_modes = filled shi_max_operation_modes msg.sensor_operation_modes a;
        })
  unfolding parse_operation_modes
  parse_operation_modes-read a t e =
      let (here, first, ea) = at_cons p offset (length a) _ e in
      with_count-eq p offset 1 (length a) _ _ _ here first (
        omega (arith, length-drop {0} offset p, ap (λ (l : List ℕ). length l) e, length-append a t))
      ∙ rw (
          memcpy_at p (offset + 1) shi_max_operation_modes (length a) msg.sensor_operation_modes a t
            ea v.modes_size refl)
