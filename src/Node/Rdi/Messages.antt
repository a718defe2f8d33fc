-- ===== src/Node/Rdi/Messages.antt =====
-- The messages that `on_rdi_frame` of src/afi920_node.cpp publishes: it calls the builder for the cloud
-- and for the array of detections, and assigns the measurement time of the latter.
use afi920_ros2_driver.Base.{
  if◌then◌else◌, Access, ok, fault, ◌>>=◌, ℕ, ◌+◌, ◌%◌, ◌^◌, ◌≡◌, refl, Bool, true, false, not,
  ◌&&◌, Option, none, some, List, [], ◌∷◌, ◌++◌,
}
use afi920_ros2_driver.Parsers.RdiTypes.{RdiFrame}
use afi920_ros2_driver.Node.Types.{Node, PointCloudConfig}
use afi920_ros2_driver.Node.Rdi.{on_rdi_frame}
use afi920_ros2_driver.Builder.Floats.{Maths}
use afi920_ros2_driver.Builder.Cloud.{PointCloud2}
use afi920_ros2_driver.Builder.{PointCloud2Message, build}
use afi920_ros2_driver.Builder.Array.{DetectionArray, build_detection_array}
use afi920_ros2_driver.Node.Types.{
  Event, publish_pointcloud, publish_detection_array, publish_marker, publish_health,
  publish_performance, send_transform,
}

-- A message of the RDI stream, or one that needs no builder.
pub data RosMessage {ℓ} (P : Type ℓ) : Type ℓ where
  cloud_message : PointCloud2Message P → RosMessage P
  array_message : DetectionArray → RosMessage P
  other_message : Event → RosMessage P

-- A builder that is not there is a null pointer.
unfoldable pub ros_message {ℓ} :
    {P : Type ℓ} ⦃lib : PointCloud2 P⦄ → Maths → Event → Access (RosMessage P)
ros_message maths (publish_pointcloud none frame stamp) = fault
ros_message maths (publish_pointcloud (some c) frame stamp) = do
  cloud ← build maths c frame stamp
  ok (cloud_message cloud)
ros_message maths (publish_detection_array none frame stamp ns) = fault
ros_message maths (publish_detection_array (some c) frame stamp ns) =
    let arr = build_detection_array maths c frame stamp in
    ok (array_message (record arr { timestamp_measurement_ns = ns }))
ros_message maths (publish_marker n stamp) = ok (other_message (publish_marker n stamp))
ros_message maths (publish_health hi) = ok (other_message (publish_health hi))
ros_message maths (publish_performance sp) = ok (other_message (publish_performance sp))
ros_message maths (send_transform tf) = ok (other_message (send_transform tf))

-- One after the other.
unfoldable pub messages {ℓ} :
    {P : Type ℓ} ⦃lib : PointCloud2 P⦄ → Maths → List Event → Access (List (RosMessage P))
unfolding ros_message
messages maths [] = ok []
messages maths (e ∷ events) = do m ← ros_message maths e; ms ← messages maths events; ok (m ∷ ms)

-- Three steps after one that may fail, in place of one.
same_cloud {ℓ κ μ ν} :
    {A : Type ℓ} {B : Type κ} {C : Type μ} {D : Type ν} (o : Access A) (f : A → Access D)
    → (g : A → Access B) (h : B → Access C) (k : C → Access D)
    → ((a : A) → f a ≡ ((g a >>= h) >>= k))
    → (o >>= f) ≡ (((o >>= g) >>= h) >>= k)
same_cloud (ok a) f g h k e = e a
same_cloud fault f g h k e = refl

-- `on_rdi_frame` with the calls made where the code makes them: it is what the events of
-- Node.Rdi.on_rdi_frame stand for, one by one.
module _ {ℓ} {P : Type ℓ} ⦃lib : PointCloud2 P⦄ (maths : Maths) where
  unfoldable pub array_built : Bool → PointCloudConfig → RdiFrame → ℕ → List (RosMessage P)
  array_built false c frame stamp = []
  array_built true c frame stamp =
      let arr = build_detection_array maths c frame stamp in
      array_message (record arr { timestamp_measurement_ns = frame.message.header.timestamp }) ∷ []

  unfoldable pub on_rdi_frame_published : Node → RdiFrame → ℕ → Access (Node × List (RosMessage P))
  unfolding array_built
  on_rdi_frame_published n frame stamp =
      let counted = record n { rdi_frame_count = (n.rdi_frame_count + 1) % 2 ^ 64 } in
      let build_arr = n.publish_detections && n.pub_rdi in
      if not n.pub_pointcloud then ok (counted, []) else (elim n.pc_builder [
        | none ↦ fault
        | some c ↦ do
          cloud ← build maths c frame stamp
          ok (
            counted,
            cloud_message cloud
                ∷ (array_built build_arr c frame stamp
                    ++ (if n.pub_marker
                        then other_message (publish_marker frame.message.num_detections stamp) ∷ []
                        else [])),
          )
      ])

  pub on_rdi_frame-published :
      (n : Node) (frame : RdiFrame) (stamp : ℕ)
      → on_rdi_frame_published n frame stamp ≡ (
          messages {P = P} maths (on_rdi_frame n frame stamp).1 >>= λ ms.
          ok ((on_rdi_frame n frame stamp).0, ms))
  unfolding on_rdi_frame_published on_rdi_frame messages ros_message array_built
  on_rdi_frame-published n frame stamp =
      go n.pub_pointcloud n.pc_builder n.publish_detections n.pub_rdi n.pub_marker
    where
      go :
          (there : Bool) (b : Option PointCloudConfig) (listed rdi marked : Bool)
          → let n = record n {
            pub_pointcloud = there;
            pc_builder = b;
            publish_detections = listed;
            pub_rdi = rdi;
            pub_marker = marked;
          } in
            on_rdi_frame_published n frame stamp ≡ (
              messages {P = P} maths (on_rdi_frame n frame stamp).1 >>= λ ms.
              ok ((on_rdi_frame n frame stamp).0, ms))
      go false b listed rdi marked = refl
      go true none listed rdi marked = refl
      go true (some c) true true true = same_cloud (build maths c frame stamp) _ _ _ _ (λ m. refl)
      go true (some c) true true false = same_cloud (build maths c frame stamp) _ _ _ _ (λ m. refl)
      go true (some c) true false true = same_cloud (build maths c frame stamp) _ _ _ _ (λ m. refl)
      go true (some c) true false false = same_cloud (build maths c frame stamp) _ _ _ _ (λ m. refl)
      go true (some c) false rdi true = same_cloud (build maths c frame stamp) _ _ _ _ (λ m. refl)
      go true (some c) false rdi false = same_cloud (build maths c frame stamp) _ _ _ _ (λ m. refl)
