-- ===== src/Node/Parameters/Batches.antt =====
-- Changing parameters in one call or in several comes to the same.
use afi920_ros2_driver.Base.{
  Bool-cases, ◌≡◌, refl, sym, ap, ◌∙◌, ◌≢◌, inl, inr, Bool, true, false, some, List, [], ◌∷◌, ◌++◌,
}
use afi920_ros2_driver.Node.Types.{Node}
use afi920_ros2_driver.Node.Parameters.{
  frame_id, min_range, max_range, min_snr, min_existence_probability, validate_e2e, e2e_strict,
  other, Parameter, Pending, collect_one, collect, config_of, pending_of, apply_config, apply,
  on_parameter_change,
}

-- The builder is there, and is configured as the members say.
abbrev pub IsConfigured : Node → Type 0
IsConfigured n = n.pc_builder ≡ some (config_of n)

-- All values stored, changed or not.
abbrev pub stored_all : Node → Pending → Node
stored_all n s = record n {
  validate_e2e = s.validate;
  e2e_strict = s.strict;
  frame_id = s.config.frame_id;
  min_range = s.config.min_range;
  max_range = s.config.max_range;
  min_snr = s.config.min_snr;
  min_existence_probability = s.config.min_existence_probability;
  pc_builder = some s.config;
}

true-ne : true ≢ false
true-ne = λ e. cc

-- Where no parameter of the configuration was among them, it is as it was.
unchanged_one :
    (s : Pending) (x : Parameter)
    → (collect_one s x).config_changed ≡ false
    → (s.config_changed ≡ false) × ((collect_one s x).config ≡ s.config)
unfolding collect_one
unchanged_one s (frame_id v) e = absurd (true-ne e)
unchanged_one s (min_range v) e = absurd (true-ne e)
unchanged_one s (max_range v) e = absurd (true-ne e)
unchanged_one s (min_snr v) e = absurd (true-ne e)
unchanged_one s (min_existence_probability v) e = absurd (true-ne e)
unchanged_one s (validate_e2e v) e = (e, refl)
unchanged_one s (e2e_strict v) e = (e, refl)
unchanged_one s other e = (e, refl)

unchanged :
    (s : Pending) (xs : List Parameter)
    → (collect s xs).config_changed ≡ false
    → (s.config_changed ≡ false) × ((collect s xs).config ≡ s.config)
unfolding collect
unchanged s [] e = (e, refl)
unchanged s (x ∷ xs) e =
    let (c, f) = unchanged (collect_one s x) xs e in
    let (c', f') = unchanged_one s x c in (c', f ∙ f')

apply-stored_all :
    (n : Node) (xs : List Parameter)
    → IsConfigured n
    → apply n (collect (pending_of n) xs) ≡ stored_all n (collect (pending_of n) xs)
unfolding apply apply_config
apply-stored_all n xs configured = elim (Bool-cases (collect (pending_of n) xs).config_changed) [
  | inl e ↦ rw (e, configured) refl
  | inr e ↦ rw e (
      let same = sym (unchanged (pending_of n) xs e).1 in
      λ i. record n {
        validate_e2e = (collect (pending_of n) xs).validate;
        e2e_strict = (collect (pending_of n) xs).strict;
        frame_id = (same i).frame_id;
        min_range = (same i).min_range;
        max_range = (same i).max_range;
        min_snr = (same i).min_snr;
        min_existence_probability = (same i).min_existence_probability;
        pc_builder = (configured ∙ ap some same) i;
      })
]

-- The mark that the configuration has changed does not influence the rest.
abbrev mark : Bool → Pending → Pending
mark b s = record s { config_changed = b }

collect_one-mark :
    (b : Bool) (s : Pending) (x : Parameter)
    → (b' : Bool) × (collect_one (mark b s) x ≡ mark b' (collect_one s x))
unfolding collect_one
collect_one-mark b s (frame_id v) = (true, refl)
collect_one-mark b s (min_range v) = (true, refl)
collect_one-mark b s (max_range v) = (true, refl)
collect_one-mark b s (min_snr v) = (true, refl)
collect_one-mark b s (min_existence_probability v) = (true, refl)
collect_one-mark b s (validate_e2e v) = (b, refl)
collect_one-mark b s (e2e_strict v) = (b, refl)
collect_one-mark b s other = (b, refl)

collect-mark :
    (b : Bool) (s : Pending) (xs : List Parameter)
    → (b' : Bool) × (collect (mark b s) xs ≡ mark b' (collect s xs))
unfolding collect
collect-mark b s [] = (b, refl)
collect-mark b s (x ∷ xs) =
    let (b1, e1) = collect_one-mark b s x in
    let (b2, e2) = collect-mark b1 (collect_one s x) xs in
    (b2, ap (λ (t : Pending). collect t xs) e1 ∙ e2)

collect-append :
    (s : Pending) (xs ys : List Parameter) → collect s (xs ++ ys) ≡ collect (collect s xs) ys
unfolding collect
collect-append s [] ys = refl
collect-append s (x ∷ xs) ys = collect-append (collect_one s x) xs ys

module _ (n : Node) (xs ys : List Parameter) (configured : IsConfigured n) where
  -- A builder is there and is configured as the members of the node say. Then it is so after any
  -- change of parameters; and changing parameters in one call leaves the node as changing the first
  -- ones in one call and the others in a second one.
  pub on_parameter_change-batches :
      IsConfigured (on_parameter_change n xs).1
      × ((on_parameter_change n (xs ++ ys)).1
          ≡ (on_parameter_change (on_parameter_change n xs).1 ys).1)
  unfolding on_parameter_change
  on_parameter_change-batches = (
    rw (apply-stored_all n xs configured) refl,
    apply-stored_all n (xs ++ ys) configured
        ∙ ap (stored_all n) (collect-append (pending_of n) xs ys)
        ∙ ap (stored_all (stored_all n first)) (sym (collect-mark false first ys).1)
        ∙ sym (apply-stored_all (stored_all n first) ys refl)
        ∙ ap (λ (k : Node). apply k (collect (pending_of k) ys))
            (sym (apply-stored_all n xs configured)),
  )
    where
      first : Pending
      first = collect (pending_of n) xs
