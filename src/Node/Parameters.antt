-- ===== src/Node/Parameters.antt =====
-- `on_parameter_change` of src/afi920_node.cpp. ROS has checked that a value has the declared type of
-- its parameter, so a parameter is given by its name with a value of that type.
pub mod Batches
use afi920_ros2_driver.Base.{if◌then◌else◌, ℕ, Bool, true, false, Option, none, some, List, [], ◌∷◌}
use afi920_ros2_driver.Node.Types.{Node, PointCloudConfig}

pub data Parameter : Type 0 where
  frame_id : List ℕ → Parameter
  min_range : ℕ → Parameter
  max_range : ℕ → Parameter
  min_snr : ℕ → Parameter
  min_existence_probability : ℕ → Parameter
  validate_e2e : Bool → Parameter
  e2e_strict : Bool → Parameter
  other : Parameter

-- The two flags, which are stored at once, and the local variables of the loop.
pub record Pending : Type 0 where
  pub validate : Bool
  pub strict : Bool
  pub config : PointCloudConfig
  pub config_changed : Bool

-- One parameter of the loop.
unfoldable pub collect_one : Pending → Parameter → Pending
collect_one s (frame_id v) = record s {
  config = record s.config { frame_id = v };
  config_changed = true;
}
collect_one s (min_range v) = record s {
  config = record s.config { min_range = v };
  config_changed = true;
}
collect_one s (max_range v) = record s {
  config = record s.config { max_range = v };
  config_changed = true;
}
collect_one s (min_snr v) = record s {
  config = record s.config { min_snr = v };
  config_changed = true;
}
collect_one s (min_existence_probability v) = record s {
  config = record s.config { min_existence_probability = v };
  config_changed = true;
}
collect_one s (validate_e2e v) = record s { validate = v }
collect_one s (e2e_strict v) = record s { strict = v }
collect_one s other = s

unfoldable pub collect : Pending → List Parameter → Pending
unfolding collect_one
collect s [] = s
collect s (x ∷ xs) = collect (collect_one s x) xs

abbrev pub config_of : Node → PointCloudConfig
config_of n = record {
  frame_id = n.frame_id;
  min_range = n.min_range;
  max_range = n.max_range;
  min_snr = n.min_snr;
  min_existence_probability = n.min_existence_probability;
}

abbrev pub pending_of : Node → Pending
pending_of n = record {
  validate = n.validate_e2e;
  strict = n.e2e_strict;
  config = config_of n;
  config_changed = false;
}

-- The members and the builder get the new values, if there is a builder.
unfoldable pub apply_config : Node → PointCloudConfig → Option PointCloudConfig → Node
apply_config n cfg none = n
apply_config n cfg (some old) = record n {
  frame_id = cfg.frame_id;
  min_range = cfg.min_range;
  max_range = cfg.max_range;
  min_snr = cfg.min_snr;
  min_existence_probability = cfg.min_existence_probability;
  pc_builder = some cfg;
}

unfoldable pub apply : Node → Pending → Node
unfolding apply_config
apply n s =
    let stored = record n { validate_e2e = s.validate; e2e_strict = s.strict } in
    if s.config_changed then apply_config stored s.config n.pc_builder else stored

-- The result is always successful.
unfoldable pub on_parameter_change : Node → List Parameter → Bool × Node
unfolding collect apply
on_parameter_change n xs = (true, apply n (collect (pending_of n) xs))
