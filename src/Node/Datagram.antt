-- ===== src/Node/Datagram.antt =====
-- A datagram as a sensor lays it out: the SOME/IP header of an event that is no segment, the E2E
-- header, and the payload.
use afi920_ros2_driver.Wire.{pack_be16, pack_be32}
use afi920_ros2_driver.Someip.{
  SomeipHeader, someip_service_id, someip_validate, someip_deserialize,
  someip_msg_type_notification, someip_is_tp, someip_header_size,
}
use afi920_ros2_driver.Base.{
  ◌!=◌, pos, length, drop, ok, ℕ, ◌≤◌, ◌≡◌, refl, true, false, some, List, ◌++◌, arith,
}
use afi920_ros2_driver.Someip.Header.{
  serialize, IsHeader, someip_deserialize-serialize, someip_validate_iff,
}
use afi920_ros2_driver.E2e.Protect.{protect}
use afi920_ros2_driver.Node.Types.{someip_header_unset}

pub record IsEventOf (event_id : ℕ) (h : SomeipHeader) : Type 0 where
  pub fields : IsHeader h
  pub service : h.service_id ≡ someip_service_id
  pub event : h.method_id ≡ event_id
  pub notification : h.message_type ≡ someip_msg_type_notification

pub accepted-header :
    (event_id : ℕ) (h : SomeipHeader)
    → IsEventOf event_id h
    → (someip_validate h ≡ true)
      × ((h.method_id != event_id) ≡ false)
      × (someip_is_tp h.message_type ≡ false)
accepted-header event_id h v = (
  (someip_validate_iff h).0.1 (v.service, rw v.notification (omega arith)),
  same event_id h.method_id v.event,
  rw v.notification (unfold someip_is_tp in refl),
)
  where
    same : (b a : ℕ) → a ≡ b → (a != b) ≡ false
    same b a e = ground arith

module _ (h : SomeipHeader) (counter data_id : ℕ) (iso : List ℕ) where
  pub datagram : List ℕ
  datagram = serialize h ++ protect counter data_id iso

  pub datagram-size : someip_header_size ≤ length datagram
  unfolding datagram serialize pack_be16 pack_be32
  datagram-size = omega arith

  pub drop-datagram : drop someip_header_size datagram ≡ protect counter data_id iso
  unfolding datagram serialize pack_be16 pack_be32
  drop-datagram = refl

  pub deserialize-datagram :
      IsHeader h → someip_deserialize (some datagram) someip_header_unset ≡ ok (pos 0, h)
  unfolding datagram
  deserialize-datagram v =
      someip_deserialize-serialize h someip_header_unset (protect counter data_id iso) v
