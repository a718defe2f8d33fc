-- ===== src/Builder/Fill.antt =====
-- The second loop of `PointCloudBuilder::build`.
use afi920_ros2_driver.Base.{
  lt→ltb, le→ltb, Bool-cases, length, take, filter, ok, ℕ, suc, ◌+◌, ◌-◌, ◌≤◌, ◌<◌, ◌≡◌, refl, sym,
  subst, ◌∙◌, ◌⊎◌, inl, inr, true, false, List, [], ◌∷◌, arith,
}
use afi920_ros2_driver.Builder.Points.{
  field_value, take_nil, write_fields-Written, last_written-point_values, published,
}
use afi920_ros2_driver.Builder.{passes_filter, fill, float_of, fill_point, point_values, RdiFrame}
use afi920_ros2_driver.Node.Types.{PointCloudConfig}
use afi920_ros2_driver.Parsers.RdiTypes.{RdiDetection, RdiFrame}
use afi920_ros2_driver.Builder.Floats.{Maths, float_of}
use afi920_ros2_driver.Builder.Cloud.{PointCloud2, IsPointCloud2, PointField}
use native.Mathlib.Decide.{dec_lt}

module _ {ℓ} {P : Type ℓ} ⦃lib : PointCloud2 P⦄ (maths : Maths) (sensor_id : ℕ) where
  -- From the point `k` on, the cloud has one point for each of the detections, in order.
  abbrev pub Holds : P → ℕ → List RdiDetection → Type 0
  Holds q k [] = Unit
  Holds q k (det ∷ ds) =
      ((f : PointField) → lib.read q f k ≡ field_value maths sensor_id det f) × Holds q (k + 1) ds

-- The detections that are still to be written at the place `i` of the loop.
abbrev pub from : PointCloudConfig → ℕ → ℕ → List RdiDetection → List RdiDetection
from c n i ds = filter (passes_filter c) (take (n - i) ds)

pub from-published :
    (c : PointCloudConfig) (frame : RdiFrame)
    → from c frame.message.num_detections 0 frame.detections_storage ≡ published c frame
from-published c frame =
    let e : frame.message.num_detections - 0 ≡ frame.message.num_detections = omega arith in
    rw e refl

from-Passing :
    (c : PointCloudConfig) (n i : ℕ) (det : RdiDetection) (ds : List RdiDetection)
    → i < n
    → passes_filter c det ≡ true
    → from c n i (det ∷ ds) ≡ det ∷ from c n (i + 1) ds
from-Passing c n i det ds l b = let e : n - i ≡ suc (n - (i + 1)) = omega arith in rw (e, b) refl

from-Refused :
    (c : PointCloudConfig) (n i : ℕ) (det : RdiDetection) (ds : List RdiDetection)
    → i < n
    → passes_filter c det ≡ false
    → from c n i (det ∷ ds) ≡ from c n (i + 1) ds
from-Refused c n i det ds l b = let e : n - i ≡ suc (n - (i + 1)) = omega arith in rw (e, b) refl

pub from-Past :
    (c : PointCloudConfig) (n i : ℕ) (ds : List RdiDetection) → n ≤ i → from c n i ds ≡ []
from-Past c n i ds l = let e : n - i ≡ 0 = omega arith in rw e refl

module _ {ℓ} {P : Type ℓ} ⦃lib : PointCloud2 P⦄ ⦃laws : IsPointCloud2 P⦄ (maths : Maths)
    (c : PointCloudConfig) (sensor_id n : ℕ) where
  pub record Filled (p : P) (k : ℕ) (ds : List RdiDetection) (q : P) : Type ℓ where
    pub same_fields : (f : PointField) → lib.has_field q f ≡ lib.has_field p f
    pub same_width : lib.width q ≡ lib.width p
    pub before : (f : PointField) (j : ℕ) → j < k → lib.read q f j ≡ lib.read p f j
    pub points : Holds maths sensor_id q k ds

  abbrev pub FillsFrom : P → ℕ → ℕ → List RdiDetection → List RdiDetection → Type ℓ
  FillsFrom p k i ds passing =
      (q : P) × (fill maths c (float_of sensor_id) n p k i ds ≡ ok q) × Filled p k passing q

  Filled-none : (p : P) (k : ℕ) → Filled p k [] p
  Filled-none p k = record {
    same_fields = λ f. refl;
    same_width = refl;
    before = λ f j h. refl;
    points = tt;
  }

  -- The loop from the next detection on.
  abbrev Rest : P → ℕ → ℕ → List RdiDetection → Type ℓ
  Rest p k i ds =
      k + length (from c n (i + 1) ds) ≤ lib.width p
      → FillsFrom p k (i + 1) ds (from c n (i + 1) ds)

  fill_passing :
      (p : P) (k i : ℕ) (det : RdiDetection) (ds : List RdiDetection)
      → i < n
      → passes_filter c det ≡ true
      → ((p1 : P) (k1 : ℕ) → Rest p1 k1 i ds)
      → k + suc (length (from c n (i + 1) ds)) ≤ lib.width p
      → FillsFrom p k i (det ∷ ds) (det ∷ from c n (i + 1) ds)
  unfolding fill fill_point
  fill_passing p k i det ds l b rest h =
      let values = point_values maths (float_of sensor_id) det in
      let (w, e, written) = write_fields-Written p k values (omega arith) in
      let wide : k + 1 + length (from c n (i + 1) ds) ≤ lib.width w =
        rw written.same_width (omega arith) in
      let (q, done, f) = rest w (k + 1) wide in
      (
        q,
        rw (lt→ltb i n l, b, e) done,
        record {
          same_fields = λ g. f.same_fields g ∙ written.same_fields g;
          same_width = f.same_width ∙ written.same_width;
          before = λ g j m. f.before g j (omega arith) ∙ written.others g j (omega arith);
          points = (
            λ g.
                f.before g k (omega arith)
                ∙ written.here g
                ∙ last_written-point_values maths sensor_id det g (lib.read p g k),
            f.points,
          );
        },
      )

  fill_refused :
      (p : P) (k i : ℕ) (det : RdiDetection) (ds : List RdiDetection)
      → i < n
      → passes_filter c det ≡ false
      → fill maths c (float_of sensor_id) n p k i (det ∷ ds)
        ≡ fill maths c (float_of sensor_id) n p k (i + 1) ds
  unfolding fill fill_point
  fill_refused p k i det ds l b = rw (lt→ltb i n l, b) refl

  fill_past :
      (p : P) (k i : ℕ) (ds : List RdiDetection)
      → n ≤ i
      → fill maths c (float_of sensor_id) n p k i ds ≡ ok p
  unfolding fill
  fill_past p k i [] l = refl
  fill_past p k i (det ∷ ds) l = rw (le→ltb i n l) refl

  fill_nil : (p : P) (k i : ℕ) → fill maths c (float_of sensor_id) n p k i [] ≡ ok p
  unfolding fill
  fill_nil p k i = refl

  pub fill-FillsFrom :
      (p : P) (k i : ℕ) (ds : List RdiDetection)
      → k + length (from c n i ds) ≤ lib.width p
      → FillsFrom p k i ds (from c n i ds)
  fill-FillsFrom p k i [] h = rw (take_nil (n - i)) (p, fill_nil p k i, Filled-none p k)
  fill-FillsFrom p k i (det ∷ ds) h = elim (dec_lt i n) [
    | yes l ↦
        counted l (Bool-cases (passes_filter c det)) (λ p1 k1. fill-FillsFrom p1 k1 (i + 1) ds)
    | no l ↦
        subst (FillsFrom p k i (det ∷ ds)) (sym (from-Past c n i (det ∷ ds) (omega arith)))
          (p, fill_past p k i (det ∷ ds) (omega arith), Filled-none p k)
  ]
    where
      counted :
          i < n
          → (passes_filter c det ≡ true) ⊎ (passes_filter c det ≡ false)
          → ((p1 : P) (k1 : ℕ) → Rest p1 k1 i ds)
          → FillsFrom p k i (det ∷ ds) (from c n i (det ∷ ds))
      counted l (inl b) rest =
          let e = from-Passing c n i det ds l b in
          subst (FillsFrom p k i (det ∷ ds)) (sym e)
            (fill_passing p k i det ds l b rest (subst (λ m. k + length m ≤ lib.width p) e h))
      counted l (inr b) rest =
          let e = from-Refused c n i det ds l b in
          let (q, done, f) = rest p k (subst (λ m. k + length m ≤ lib.width p) e h) in
          subst (FillsFrom p k i (det ∷ ds)) (sym e) (q, fill_refused p k i det ds l b ∙ done, f)
