-- ===== src/Builder/Runs.antt =====
-- The theorems on the builder at a concrete frame.
use afi920_ros2_driver.Base.{length, ok, Safe, ◌≡◌, refl, true, ◌&&◌, [], ◌∷◌, map, arith}
use afi920_ros2_driver.Builder.Built.{IsCloudOf, build-IsCloudOf}
use afi920_ros2_driver.Parsers.RdiTypes.{RdiDetection}
use afi920_ros2_driver.Builder.Array.Agrees.{CloudAgrees, build-CloudAgrees}
use afi920_ros2_driver.Builder.Points.{published}
use afi920_ros2_driver.Builder.Range.{passes_filter_nan, is_clear_enough, is_likely_enough}
use afi920_ros2_driver.Builder.Samples.{plain_maths, wide_config, mixed_frame, sample_detection}
use afi920_ros2_driver.Builder.Floats.{
  double_of_float, double_of, less, is_nan, leading_bit, leading, float_of,
}
use afi920_ros2_driver.Builder.Array.{build_detection_array}
use afi920_ros2_driver.Builder.Cloud.{table_cloud, Table, Table-IsPointCloud2}
use afi920_ros2_driver.Builder.{
  passes_filter, build, PointCloud2Message, double_of_float, build_points, double_of, count_valid,
  less, has_fields, fill, fill_point, write_fields, RdiDetection, point_values, cartesian, float_of,
}

-- The detection at 400 m is refused, the one that is at no distance is not.
published_mixed :
    map (λ (det : RdiDetection). det.detection_id) (published wide_config mixed_frame) ≡ 1 ∷ 3 ∷ []
unfolding passes_filter double_of_float double_of less is_nan leading_bit leading
published_mixed = refl

built_mixed :
    Safe
      (λ (m : PointCloud2Message Table).
        (m.points.points ≡ 2)
        × (m.points.cells 3 0 ≡ 0x4248_0000)
        × (m.points.cells 15 1 ≡ 0x4040_0000))
      (build plain_maths wide_config mixed_frame 9)
unfolding build build_points count_valid has_fields fill fill_point write_fields point_values
    cartesian float_of passes_filter double_of_float double_of less is_nan leading_bit leading
built_mixed = (refl, refl, refl)

build-IsCloudOf_example :
    (points : Table) × (build plain_maths wide_config mixed_frame 9
      ≡ ok (record { stamp = 9; frame_id = 97 ∷ []; height = 1; is_dense = true; points = points }))
    × IsCloudOf plain_maths wide_config mixed_frame points
build-IsCloudOf_example =
    build-IsCloudOf ⦃laws = Table-IsPointCloud2⦄ plain_maths wide_config mixed_frame 9

build-CloudAgrees_example :
    (m : PointCloud2Message Table) × (build plain_maths wide_config mixed_frame 9 ≡ ok m)
    × (m.stamp ≡ (build_detection_array plain_maths wide_config mixed_frame 9).stamp)
    × (m.frame_id ≡ (build_detection_array plain_maths wide_config mixed_frame 9).frame_id)
    × (m.points.points
        ≡ length (build_detection_array plain_maths wide_config mixed_frame 9).detections)
    × CloudAgrees m.points 0
        (build_detection_array plain_maths wide_config mixed_frame 9).detections
build-CloudAgrees_example =
    build-CloudAgrees ⦃laws = Table-IsPointCloud2⦄ plain_maths wide_config mixed_frame 9

passes_filter_nan_example : passes_filter wide_config (sample_detection 3 0x7fc0_0000) ≡ (
    is_clear_enough wide_config (sample_detection 3 0x7fc0_0000)
    && is_likely_enough wide_config (sample_detection 3 0x7fc0_0000))
passes_filter_nan_example =
    passes_filter_nan wide_config (sample_detection 3 0x7fc0_0000) (omega arith)
