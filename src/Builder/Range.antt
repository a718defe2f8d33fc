-- ===== src/Builder/Range.antt =====
-- Which detections pass.
use afi920_ros2_driver.Base.{
  if◌then◌else◌, lt→ltb, filter, ℕ, ◌*◌, ◌/◌, ◌%◌, ◌^◌, ◌<◌, ◌≡◌, refl, ◌∙◌, Bool, true, false, not,
  ◌&&◌, ◌||◌, List, [], ◌∷◌, arith,
}
use afi920_ros2_driver.Parsers.RdiTypes.{RdiDetection}
use afi920_ros2_driver.Node.Types.{PointCloudConfig}
use afi920_ros2_driver.Builder.{
  passes_filter, double_of_float, PointCloudConfig, RdiDetection, double_of,
}
use afi920_ros2_driver.Builder.Floats.{is_nan, less, double_of_float, double_of}

abbrev pub IsFloatNan : ℕ → Type 0
IsFloatNan w = 255 * 2 ^ 23 < w % 2 ^ 31

is_nan-double_of_float : (w : ℕ) → IsFloatNan w → is_nan (double_of_float w) ≡ true
unfolding is_nan double_of_float
is_nan-double_of_float w h =
    let e : w / 2 ^ 23 % 2 ^ 8 ≡ 255 = omega arith in
    let f : 0 < w % 2 ^ 23 = omega arith in rw e (lt→ltb (2047 * 2 ^ 52) _ (omega arith))

less_nan : (a b : ℕ) → is_nan a ≡ true → (less a b ≡ false) × (less b a ≡ false)
unfolding less
less_nan a b h = rw h (refl, refuses (not (is_nan b)) _)
  where
    refuses : (x y : Bool) → (x && false && y) ≡ false
    refuses true y = refl
    refuses false y = refl

-- The four limits, each by itself.
abbrev pub is_far_enough : PointCloudConfig → RdiDetection → Bool
is_far_enough c det = not (less (double_of_float det.position_radial_distance) c.min_range)

abbrev pub is_near_enough : PointCloudConfig → RdiDetection → Bool
is_near_enough c det = not (less c.max_range (double_of_float det.position_radial_distance))

abbrev pub is_clear_enough : PointCloudConfig → RdiDetection → Bool
is_clear_enough c det = not (less (double_of_float det.signal_to_noise_ratio) c.min_snr)

abbrev pub is_likely_enough : PointCloudConfig → RdiDetection → Bool
is_likely_enough c det =
    not (less (double_of det.existence_probability) c.min_existence_probability)

abbrev pub is_within : PointCloudConfig → RdiDetection → Bool
is_within c det =
    is_far_enough c det && is_near_enough c det && is_clear_enough c det && is_likely_enough c det

pub passes_filter_within :
    (c : PointCloudConfig) (det : RdiDetection) → passes_filter c det ≡ is_within c det
unfolding passes_filter
passes_filter_within c det =
    tests (less (double_of_float det.position_radial_distance) c.min_range)
      (less c.max_range (double_of_float det.position_radial_distance))
      (less (double_of_float det.signal_to_noise_ratio) c.min_snr) _
  where
    tests :
        (near far noisy unlikely : Bool)
        → (if near || far then false else (if noisy then false else not unlikely))
          ≡ (not near && not far && not noisy && not unlikely)
    tests true far noisy unlikely = refl
    tests false true noisy unlikely = refl
    tests false false true unlikely = refl
    tests false false false unlikely = refl

pub filter_same {ℓ} :
    {A : Type ℓ} (p q : A → Bool)
    → ((x : A) → p x ≡ q x)
    → (xs : List A) → filter p xs ≡ filter q xs
filter_same p q e [] = refl
filter_same p q e (x ∷ xs) = rw (e x, filter_same p q e xs) refl

-- A detection whose distance is not a number passes whatever the limits of the range are: it passes
-- exactly if its signal-to-noise ratio and its existence probability reach theirs.
pub passes_filter_nan :
    (c : PointCloudConfig) (det : RdiDetection)
    → IsFloatNan det.position_radial_distance
    → passes_filter c det ≡ (is_clear_enough c det && is_likely_enough c det)
passes_filter_nan c det h =
    let nan = is_nan-double_of_float det.position_radial_distance h in
    let (low, _) = less_nan (double_of_float det.position_radial_distance) c.min_range nan in
    let (_, high) = less_nan (double_of_float det.position_radial_distance) c.max_range nan in
    passes_filter_within c det ∙ rw (low, high) refl
