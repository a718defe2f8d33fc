-- ===== src/Someip/Runs.antt =====
-- The SOME/IP theorems at concrete headers and segments.
use afi920_ros2_driver.Base.{
  length, get_or, ok, ℕ, zero, suc, ◌<◌, ◌≡◌, refl, ◌↔◌, ◌⊎◌, inl, inr, true, false, some, List, [],
  ◌∷◌, arith,
}
use afi920_ros2_driver.Someip.{
  SomeipHeader, someip_service_id, event_rdi, someip_validate, someip_is_tp,
}
use afi920_ros2_driver.Someip.Header.{someip_validate_iff}
use afi920_ros2_driver.Someip.Tp.{Reassembler, reassembler_init, feed, get_payload}
use afi920_ros2_driver.Someip.Tp.Reassembly.{Arrival, Covers, Covered}
use afi920_ros2_driver.Someip.Tp.Complete.{feed_message, feed_message-payload, feed_last_alone}

abbrev rdi_header : SomeipHeader
rdi_header = record {
  service_id = someip_service_id;
  method_id = event_rdi;
  length = 100;
  client_id = 1;
  session_id = 77;
  protocol_version = 1;
  interface_version = 1;
  message_type = 0x22;
  return_code = 0;
}

someip_validate_iff_example :
    ((someip_validate rdi_header ≡ true) ↔ ((0x6000 ≡ someip_service_id) × ◌≡◌ {A = ℕ} 2 2))
    × ((someip_is_tp 0x22 ≡ true) ↔ (◌≡◌ {A = ℕ} 1 1))
someip_validate_iff_example = someip_validate_iff rdi_header

-- A message of three bytes that has been begun.
abbrev begun_message : Reassembler
begun_message = record reassembler_init { in_progress = true; session_id = 4; started_at = 10 }

-- The buffer still holds the bytes of an earlier message.
abbrev used : Reassembler
used = record reassembler_init { buffer = 91 ∷ 92 ∷ 93 ∷ 94 ∷ 95 ∷ [] }

abbrev message : List ℕ
message = 1 ∷ 2 ∷ 3 ∷ 4 ∷ []

abbrev middle : Arrival
middle = record { offset = 1; size = 2; checked = 50; started = 50 }

abbrev head_part : Arrival
head_part = record { offset = 0; size = 1; checked = 60; started = 60 }

abbrev tail_part : Arrival
tail_part = record { offset = 3; size = 1; checked = 70; started = 70 }

all-Covered : (i : ℕ) → i < 4 → Covers tail_part i ⊎ Covered (middle ∷ head_part ∷ []) i
all-Covered zero h = inr (inr (inl (omega arith)))
all-Covered (suc zero) h = inr (inl (omega arith))
all-Covered (suc (suc zero)) h = inr (inl (omega arith))
all-Covered (suc (suc (suc zero))) h = inl (omega arith)
all-Covered (suc (suc (suc (suc i)))) h = absurd (omega arith)

feed_message-payload_example :
    (r' : Reassembler) × (feed_message used message 4 (middle ∷ head_part ∷ []) tail_part
      ≡ ok (true, r'))
    × (get_payload r' ≡ message)
    × (r'.in_progress ≡ false)
feed_message-payload_example =
    feed_message-payload used message 4 middle tail_part (head_part ∷ []) refl (omega arith)
      (omega arith) (omega arith) (omega arith) refl all-Covered

feed_last_alone_example :
    (r' : Reassembler) × (feed used (some (4 ∷ [])) 3 false 4 70 70 ≡ ok (true, r'))
    × (length (get_payload r') ≡ 4)
    × ((i : ℕ) → i < 3 → get_or (get_payload r') i 0 ≡ get_or used.buffer i 0)
feed_last_alone_example = feed_last_alone used (4 ∷ []) 3 4 70 70 refl (omega arith) (omega arith)
