-- ===== src/Node/Gate.antt =====
-- `consume_e2e_header` of src/afi920_node.cpp.
pub mod Strict
pub mod Damaged
use afi920_ros2_driver.Base.{
  ltb, ◌==◌, ◌!=◌, if◌then◌else◌, ℤ, pos, negsuc, is_negative, length, drop, Access, ok, ◌>>=◌, ℕ,
  ◌-◌, Bool, true, false, not, ◌&&◌, Option, none, some, List,
}
use afi920_ros2_driver.E2e.{
  k_ok, k_crc_mismatch, k_too_short, E2eStatus, E2eHeader, e2e_validate, e2e_header_size,
  e2e_header_init, e2e_parse,
}

unfoldable pub is_too_short : E2eStatus → Bool
is_too_short k_ok = false
is_too_short k_crc_mismatch = false
is_too_short k_too_short = true

unfoldable pub is_crc_mismatch : E2eStatus → Bool
is_crc_mismatch k_ok = false
is_crc_mismatch k_crc_mismatch = true
is_crc_mismatch k_too_short = false

-- The status of the header, checked or only parsed.
unfoldable pub e2e_status : Bool → List ℕ → Access (E2eStatus × E2eHeader)
e2e_status true payload = e2e_validate (some payload) e2e_header_init
e2e_status false payload = do
  (rc, e2e) ← e2e_parse (some payload) e2e_header_init
  ok (if is_negative rc then k_too_short else k_ok, e2e)

-- `none` is the result false. The two flags are read once each.
unfoldable pub consume_e2e_header : Bool → Bool → List ℕ → ℕ → Access (Option (List ℕ × E2eHeader))
unfolding is_too_short is_crc_mismatch
consume_e2e_header validate strict payload expected_data_id =
    if ltb (length payload) e2e_header_size then ok none else do
      (status, e2e) ← e2e_status validate payload
      let iso_len = length payload - e2e_header_size
      let metadata_ok = if e2e.length != iso_len then false else true
      let metadata_ok_2 = if e2e.data_id != expected_data_id then false else metadata_ok
      if is_too_short status
          then ok none
          else (if is_crc_mismatch status && strict
              then ok none
              else (if not metadata_ok_2 && strict
                  then ok none
                  else ok (some (drop e2e_header_size payload, e2e))))

-- `rc == 0`
unfoldable pub is_zero : ℤ → Bool
is_zero (pos n) = n == 0
is_zero (negsuc n) = false
