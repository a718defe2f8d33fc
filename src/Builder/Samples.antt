-- ===== src/Builder/Samples.antt =====
-- A configuration and a frame for the runs: up to 300 m, and arithmetic that leaves the angles out.
use afi920_ros2_driver.Base.{ℕ, [], ◌∷◌}
use afi920_ros2_driver.Parsers.RdiTypes.{RdiDetection, RdiFrame, rdi_detection_init, rdi_frame_init}
use afi920_ros2_driver.Node.Types.{PointCloudConfig}
use afi920_ros2_driver.Builder.Floats.{Maths}

abbrev pub plain_maths : Maths
plain_maths = record { times = λ a b. a; cos = λ a. a; sin = λ a. a }

abbrev pub wide_config : PointCloudConfig
wide_config = record {
  frame_id = 97 ∷ [];
  min_range = 0;
  max_range = 0x4072_c000_0000_0000;
  min_snr = 0;
  min_existence_probability = 0;
}

-- At 50 m, at 400 m, and at no distance.
abbrev pub sample_detection : ℕ → ℕ → RdiDetection
sample_detection identifier distance = record rdi_detection_init {
  detection_id = identifier;
  position_radial_distance = distance;
  existence_probability = 80;
}

abbrev pub mixed_frame : RdiFrame
mixed_frame = record rdi_frame_init {
  message = record rdi_frame_init.message { num_detections = 3 };
  detections_storage =
      sample_detection 1 0x4248_0000
      ∷ sample_detection 2 0x43c8_0000
      ∷ sample_detection 3 0x7fc0_0000
      ∷ [];
}
