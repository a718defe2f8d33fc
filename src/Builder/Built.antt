-- ===== src/Builder/Built.antt =====
-- The message that `PointCloudBuilder::build` returns.
use afi920_ros2_driver.Base.{
  ◌==◌, if◌then◌else◌, ==_cases, length, take, filter, ok, fault, ℕ, zero, suc, ◌≡◌, refl, sym, ap,
  subst, ◌∙◌, inl, inr, Bool, true, false, not, ◌||◌, List, [], ◌∷◌, arith,
}
use afi920_ros2_driver.Builder.Fill.{Holds, fill-FillsFrom, from-published}
use afi920_ros2_driver.Builder.Points.{published, set_up, count_valid-filter}
use afi920_ros2_driver.Builder.{
  all_fields, is_empty, has_fields, build_points, RdiDetection, passes_filter, fill, float_of,
  count_valid, build,
}
use afi920_ros2_driver.Parsers.RdiTypes.{RdiFrame, RdiDetection}
use afi920_ros2_driver.Builder.Floats.{Maths, float_of}
use afi920_ros2_driver.Node.Types.{PointCloudConfig}
use afi920_ros2_driver.Builder.Cloud.{PointCloud2, PointField, IsPointCloud2}

module _ {ℓ} {P : Type ℓ} ⦃lib : PointCloud2 P⦄ (maths : Maths) (c : PointCloudConfig)
    (frame : RdiFrame) where
  -- The points are those of the published detections, and every field is declared.
  pub record IsCloudOf (q : P) : Type ℓ where
    pub fields : (f : PointField) → lib.has_field q f ≡ true
    pub width : lib.width q ≡ length (published c frame)
    pub points : Holds maths frame.message.header.sensor_id q 0 (published c frame)

-- The two early returns.
none_published :
    (c : PointCloudConfig) (frame : RdiFrame)
    → ((frame.message.num_detections == 0) || is_empty frame.detections_storage) ≡ true
    → published c frame ≡ []
none_published c frame h = go frame.message.num_detections frame.detections_storage h
  where
    go :
        (n : ℕ) (ds : List RdiDetection)
        → ((n == 0) || is_empty ds) ≡ true
        → filter (passes_filter c) (take n ds) ≡ []
    go zero ds h = refl
    go (suc n) [] h = refl
    go (suc n) (det ∷ ds) h = absurd (ground arith)

length-nil {ℓ} : {A : Type ℓ} (xs : List A) → length xs ≡ 0 → xs ≡ []
length-nil [] h = refl
length-nil (x ∷ xs) h = absurd (omega arith)

module _ {ℓ} (P : Type ℓ) ⦃lib : PointCloud2 P⦄ ⦃laws : IsPointCloud2 P⦄ where
  abbrev points0 : P
  points0 = lib.set_fields lib.empty all_fields

  sized : (n : ℕ) (f : PointField) → lib.has_field (lib.set_size points0 n) f ≡ true
  sized n f =
      laws.has_field-set_size points0 n f
      ∙ laws.has_field-set_fields lib.empty all_fields f
      ∙ set_up f

  has_fields-sized : (n : ℕ) (fs : List PointField) → has_fields (lib.set_size points0 n) fs ≡ true
  unfolding has_fields
  has_fields-sized n [] = refl
  has_fields-sized n (f ∷ fs) = rw (sized n f, has_fields-sized n fs) refl

module _ {ℓ} {P : Type ℓ} ⦃lib : PointCloud2 P⦄ ⦃laws : IsPointCloud2 P⦄ (maths : Maths)
    (c : PointCloudConfig) (frame : RdiFrame) where
  IsCloudOf-empty : published c frame ≡ [] → IsCloudOf maths c frame (lib.set_size (points0 P) 0)
  IsCloudOf-empty e = record {
    fields = sized P 0;
    width = laws.width-set_size (points0 P) 0 ∙ ap length (sym e);
    points =
        subst (Holds maths frame.message.header.sensor_id (lib.set_size (points0 P) 0) 0) (sym e)
          tt;
  }

  -- With at least one detection.
  IsCloudOf-filled :
      (n : ℕ)
      → n ≡ length (published c frame)
      → (points : P) × (fill maths c
            (float_of frame.message.header.sensor_id)
            frame.message.num_detections
            (lib.set_size (points0 P) n)
            0
            0
            frame.detections_storage
          ≡ ok points)
        × IsCloudOf maths c frame points
  IsCloudOf-filled n e =
      let start = lib.set_size (points0 P) n in
      let (q, done, f) =
        fill-FillsFrom maths c frame.message.header.sensor_id frame.message.num_detections start 0 0
          frame.detections_storage
          (rw (laws.width-set_size (points0 P) n, from-published c frame) (omega arith)) in
      (
        q,
        done,
        record {
          fields = λ g. f.same_fields g ∙ sized P n g;
          width = f.same_width ∙ laws.width-set_size (points0 P) n ∙ e;
          points =
              subst (Holds maths frame.message.header.sensor_id q 0) (from-published c frame)
                f.points;
        },
      )

  build_points-IsCloudOf :
      (points : P) × (build_points maths c frame ≡ ok points) × IsCloudOf maths c frame points
  unfolding build_points
  build_points-IsCloudOf =
      go ((frame.message.num_detections == 0) || is_empty frame.detections_storage) refl
        (count_valid c frame.message.num_detections 0 frame.detections_storage)
        (count_valid-filter c frame.message.num_detections 0 frame.detections_storage
          ∙ ap length (from-published c frame))
    where
      go :
          (b : Bool)
          → ((frame.message.num_detections == 0) || is_empty frame.detections_storage) ≡ b
          → (n : ℕ) → n ≡ length (published c frame)
          → (points : P) × ((if b
                then ok (lib.set_size (points0 P) 0)
                else (if n == 0
                    then ok (lib.set_size (points0 P) 0)
                    else (if not (has_fields (lib.set_size (points0 P) n) all_fields)
                        then fault
                        else fill maths c
                            (float_of frame.message.header.sensor_id)
                            frame.message.num_detections
                            (lib.set_size (points0 P) n)
                            0
                            0
                            frame.detections_storage)))
              ≡ ok points)
            × IsCloudOf maths c frame points
      go true e n h = (lib.set_size (points0 P) 0, refl, IsCloudOf-empty (none_published c frame e))
      go false e n h = elim (==_cases n 0) [
        | inl (b, z) ↦ rw b (
          lib.set_size (points0 P) 0,
          refl,
          IsCloudOf-empty (length-nil (published c frame) (omega arith)),
        )
        | inr (b, z) ↦ rw (b, has_fields-sized P n all_fields) (IsCloudOf-filled n h)
      ]

  -- `build` never writes past the cloud, whatever frame comes: it returns a message with the time
  -- stamp and the configured frame id, one row, all 18 fields also where it is empty, and one point
  -- for each detection among the announced ones that passes the filter, in their order, with every
  -- field as the detection has it.
  pub build-IsCloudOf :
      (stamp : ℕ)
      → (points : P) × (build maths c frame stamp
          ≡ ok (record {
            stamp = stamp;
            frame_id = c.frame_id;
            height = 1;
            is_dense = true;
            points = points;
          }))
        × IsCloudOf maths c frame points
  unfolding build
  build-IsCloudOf stamp = let (points, e, v) = build_points-IsCloudOf in (points, rw e refl, v)
