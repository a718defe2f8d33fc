-- ===== src/Parsers/Rdi/Total.antt =====
-- The RDI parser reads only bytes of the payload, and returns as many detections as it announces.
use afi920_ros2_driver.Base.{
  lt→ltb, le→ltb, pos, negsuc, length, drop, length-drop, ok, fault, byte_at-ok, ok-ne-fault, ℕ,
  zero, suc, ◌+◌, ◌-◌, ◌*◌, ◌/◌, ◌≤◌, ◌<◌, min, ◌≡◌, refl, ap, ◌≢◌, Option, none, some, List, [],
  ◌∷◌, arith,
}
use native.Mathlib.Decide.{dec_lt}
use afi920_ros2_driver.Wire.{unpack_le16, unpack_le_f32}
use afi920_ros2_driver.Wire.Total.{u8, le16, le32, unpack_le16-ok, unpack_le_f32-ok}
use afi920_ros2_driver.Parsers.Iso.Header.{interface_header_at, parse_interface_header-ok}
use afi920_ros2_driver.Parsers.RdiTypes.{
  rdi_header_size, rdi_detection_size, rdi_max_detections, RdiDetection, rdi_detection_init,
  RdiFrame,
}
use afi920_ros2_driver.Parsers.Rdi.{
  parse_detection, parse_detections, clamp_detections, parse, unpack_le16, unpack_le_f32,
}

-- The detection at the pointer `d`.
abbrev pub detection_at : List ℕ → RdiDetection
detection_at d = record rdi_detection_init {
  existence_probability = u8 d 0;
  detection_id = le16 (drop 1 d);
  object_id_reference = le16 (drop 3 d);
  timestamp_difference = le32 (drop 5 d);
  radar_cross_section = le32 (drop 9 d);
  signal_to_noise_ratio = le32 (drop 13 d);
  ambiguity_grouping_id = le16 (drop 17 d);
  position_radial_distance = le32 (drop 19 d);
  position_azimuth = le32 (drop 23 d);
  position_elevation = le32 (drop 27 d);
  position_radial_distance_error = le32 (drop 31 d);
  position_azimuth_error = le32 (drop 35 d);
  position_elevation_error = le32 (drop 39 d);
  relative_velocity_radial = le32 (drop 43 d);
  relative_velocity_radial_error = le32 (drop 47 d);
}

pub parse_detection-ok :
    (d : List ℕ) → rdi_detection_size ≤ length d → parse_detection d ≡ ok (detection_at d)
unfolding parse_detection
parse_detection-ok d h = rw (
  byte_at-ok d 0 (omega arith),
  half 1 (omega arith),
  half 3 (omega arith),
  float 5 (omega arith),
  float 9 (omega arith),
  float 13 (omega arith),
  half 17 (omega arith),
  float 19 (omega arith),
  float 23 (omega arith),
  float 27 (omega arith),
  float 31 (omega arith),
  float 35 (omega arith),
  float 39 (omega arith),
  float 43 (omega arith),
  float 47 (omega arith),
)
  where
    half : (k : ℕ) → k + 2 ≤ length d → unpack_le16 (drop k d) ≡ ok (le16 (drop k d))
    half k hk = unpack_le16-ok (drop k d) (omega (arith, length-drop {0} k d))

    float : (k : ℕ) → k + 4 ≤ length d → unpack_le_f32 (drop k d) ≡ ok (le32 (drop k d))
    float k hk = unpack_le_f32-ok (drop k d) (omega (arith, length-drop {0} k d))

abbrev pub detection_offset : ℕ → ℕ
detection_offset i = rdi_header_size + i * rdi_detection_size

-- The detections that stand in the payload from number `i` on.
abbrev pub detections_at : List ℕ → ℕ → ℕ → List RdiDetection
detections_at payload i zero = []
detections_at payload i (suc n) =
    detection_at (drop (detection_offset i) payload) ∷ detections_at payload (i + 1) n

pub length-detections_at : (payload : List ℕ) (i n : ℕ) → length (detections_at payload i n) ≡ n
length-detections_at payload i zero = refl
length-detections_at payload i (suc n) = ap suc (length-detections_at payload (i + 1) n)

pub parse_detections-ok :
    (payload : List ℕ) (i n : ℕ)
    → detection_offset (i + n) ≤ length payload
    → parse_detections payload i n ≡ ok (detections_at payload i n)
unfolding parse_detections
parse_detections-ok payload i zero h = refl
parse_detections-ok payload i (suc n) h = rw (
  parse_detection-ok (drop (detection_offset i) payload)
      (omega (arith, length-drop {0} (detection_offset i) payload)),
  parse_detections-ok payload (i + 1) n (omega arith),
)

-- The count is the smallest of the announced one, the maximum and the number of whole detections.
pub clamp_detections-min :
    (len declared : ℕ)
    → rdi_header_size ≤ len
    → clamp_detections len declared
      ≡ min (min declared rdi_max_detections) ((len - rdi_header_size) / rdi_detection_size)
unfolding clamp_detections
clamp_detections-min len declared h = ground arith

module _ (payload : List ℕ) (frame : RdiFrame) where
  abbrev pub count : ℕ
  count = clamp_detections (length payload) (le16 (drop 34 payload))

  -- The frame that the bytes of the payload stand for.
  abbrev pub frame_at : RdiFrame
  frame_at = record frame {
    message = record {
      header = interface_header_at payload;
      ambiguity_domain = record {
        radial_velocity_begin = le32 (drop 24 payload);
        radial_velocity_end = le32 (drop 28 payload);
        range_begin = 0;
        range_end = 0;
        azimuth_begin = 0;
        azimuth_end = 0;
        elevation_begin = 0;
        elevation_end = 0;
      };
      recognised_detections_capability = le16 (drop 32 payload);
      recognised_detections_status = 0;
      num_detections = count;
    };
    detections_storage = detections_at payload 0 count;
  }

  pub parse-frame_at :
      rdi_header_size ≤ length payload → parse (some payload) frame ≡ ok (pos 0, frame_at)
  unfolding parse
  parse-frame_at h = rw (
    le→ltb (length payload) rdi_header_size h,
    parse_interface_header-ok payload (omega arith),
    unpack_le_f32-ok (drop 24 payload) (omega (arith, length-drop {0} 24 payload)),
    unpack_le_f32-ok (drop 28 payload) (omega (arith, length-drop {0} 28 payload)),
    unpack_le16-ok (drop 32 payload) (omega (arith, length-drop {0} 32 payload)),
    unpack_le16-ok (drop 34 payload) (omega (arith, length-drop {0} 34 payload)),
    parse_detections-ok payload 0 count
        (omega (arith, clamp_detections-min (length payload) (le16 (drop 34 payload)) h)),
  )

-- A payload of 36 bytes or more is parsed with result 0. The frame announces the smallest of the
-- number in the payload, 4096, and the number of whole detections that follow the header, and it
-- stores exactly as many.
pub parse_counts :
    (payload : List ℕ) (frame : RdiFrame)
    → rdi_header_size ≤ length payload
    → (f : RdiFrame) × (parse (some payload) frame ≡ ok (pos 0, f))
      × (f.message.num_detections
          ≡ min
              (min (le16 (drop 34 payload)) rdi_max_detections)
              ((length payload - rdi_header_size) / rdi_detection_size))
      × (length f.detections_storage ≡ f.message.num_detections)
parse_counts payload frame h = (
  frame_at payload frame,
  parse-frame_at payload frame h,
  clamp_detections-min (length payload) (le16 (drop 34 payload)) h,
  length-detections_at payload 0 (count payload frame),
)

pub parse_short :
    (payload : List ℕ) (frame : RdiFrame)
    → length payload < rdi_header_size
    → parse (some payload) frame ≡ ok (negsuc 0, frame)
unfolding parse
parse_short payload frame h = rw (lt→ltb (length payload) rdi_header_size h)

-- No payload, however short or malformed, makes the parser read past its end.
pub parse-ne-fault : (payload : Option (List ℕ)) (frame : RdiFrame) → parse payload frame ≢ fault
parse-ne-fault none frame = unfold parse in (λ e. cc)
parse-ne-fault (some payload) frame = elim (dec_lt (length payload) rdi_header_size) [
  | yes short ↦ ok-ne-fault (parse_short payload frame short)
  | no long ↦ ok-ne-fault (parse-frame_at payload frame (omega arith))
]
