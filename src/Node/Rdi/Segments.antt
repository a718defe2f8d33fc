-- ===== src/Node/Rdi/Segments.antt =====
-- An RDI message that comes in SOME/IP-TP segments is treated as one that comes in one datagram.
use afi920_ros2_driver.Wire.{pack_be32, pack_be16}
use afi920_ros2_driver.Someip.{
  SomeipHeader, someip_service_id, someip_deserialize, someip_validate, event_rdi, someip_is_tp,
  someip_header_size, someip_tp_header_size,
}
use afi920_ros2_driver.Base.{
  ◌!=◌, le→ltb, pos, length, drop, ok, ◌>>=◌, ℕ, ◌+◌, ◌*◌, ◌^◌, ◌≤◌, ◌<◌, ◌≡◌, refl, true, false,
  some, List, ◌++◌, arith,
}
use afi920_ros2_driver.Someip.Header.{
  serialize, IsHeader, someip_deserialize-serialize, someip_validate_iff,
  someip_tp_deserialize-pack,
}
use afi920_ros2_driver.Someip.Tp.{feed}
use afi920_ros2_driver.Node.Types.{Node, Clock, someip_header_unset}
use afi920_ros2_driver.Node.Rdi.{
  rdi_segment_fed, rdi_segment_received, process_rdi_datagram, someip_deserialize, someip_validate,
  event_rdi, someip_is_tp, someip_header_size, someip_tp_header_size,
}
use afi920_ros2_driver.Node.Rdi.Stream.{counted}

-- The header of an RDI event that is a segment.
pub record IsSegmentHeader (h : SomeipHeader) : Type 0 where
  pub fields : IsHeader h
  pub service : h.service_id ≡ someip_service_id
  pub event : h.method_id ≡ event_rdi
  pub segmented : h.message_type ≡ 0x22

-- The datagram of a segment whose offset is so many units of 16 bytes.
pub segment_datagram : SomeipHeader → ℕ → ℕ → List ℕ → List ℕ
segment_datagram h units more xs = serialize h ++ (pack_be32 (units * 16 + 0 * 2 + more) ++ xs)

module _ (h : SomeipHeader) (v : IsSegmentHeader h) (units more : ℕ) (xs : List ℕ) where
  segment-size : someip_header_size ≤ length (segment_datagram h units more xs)
  unfolding segment_datagram serialize pack_be16 pack_be32
  segment-size = omega arith

  drop-segment :
      drop someip_header_size (segment_datagram h units more xs)
      ≡ pack_be32 (units * 16 + 0 * 2 + more) ++ xs
  unfolding segment_datagram serialize pack_be16 pack_be32
  drop-segment = refl

  deserialize-segment :
      someip_deserialize (some (segment_datagram h units more xs)) someip_header_unset
      ≡ ok (pos 0, h)
  unfolding segment_datagram
  deserialize-segment = someip_deserialize-serialize h someip_header_unset _ v.fields

  tp_size : 4 ≤ length (pack_be32 (units * 16 + 0 * 2 + more) ++ xs)
  unfolding pack_be32
  tp_size = omega arith

  drop-tp : drop 4 (pack_be32 (units * 16 + 0 * 2 + more) ++ xs) ≡ xs
  unfolding pack_be32
  drop-tp = refl

  valid : someip_validate h ≡ true
  valid = (someip_validate_iff h).0.1 (v.service, rw v.segmented (omega arith))

  is_rdi : (h.method_id != event_rdi) ≡ false
  is_rdi = rw v.event refl

  is_segment : someip_is_tp h.message_type ≡ true
  is_segment = (someip_validate_iff h).1.1 (rw v.segmented (omega arith))

  -- One segment is fed to the reassembler.
  pub process-segment :
      (n : Node) (clock : Clock)
      → units < 2 ^ 28
      → more < 2
      → process_rdi_datagram n clock (segment_datagram h units more xs) ≡ (
          feed n.rdi_tp (some xs) (units * 16) (more != 0) h.session_id clock.checked clock.started
          >>= rdi_segment_fed (counted n) clock)
  unfolding process_rdi_datagram rdi_segment_received
  process-segment n clock hu hm = rw (
    le→ltb (length (segment_datagram h units more xs)) someip_header_size segment-size,
    drop-segment,
    deserialize-segment,
    valid,
    is_rdi,
    is_segment,
    le→ltb (length (pack_be32 (units * 16 + 0 * 2 + more) ++ xs)) someip_tp_header_size tp_size,
    someip_tp_deserialize-pack units 0 more xs hu (omega arith) hm,
    drop-tp,
  )
