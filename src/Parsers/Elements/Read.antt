-- ===== src/Parsers/Elements/Read.antt =====
-- The loop over the elements of a section, on elements that are laid out one after the other.
use afi920_ros2_driver.Base.{
  lt→ltb, le→ltb, length, take, drop, All, length-append, length-drop, Access, ok, ◌>>=◌, ℕ, zero,
  suc, ◌+◌, ◌*◌, ◌≤◌, min, ◌≡◌, refl, sym, ap, ◌∙◌, List, [], ◌∷◌, ◌++◌, append_assoc, arith,
}
use afi920_ros2_driver.Parsers.At.{at_append, at_cons}
use afi920_ros2_driver.Parsers.Section.{with_count, with_count-eq}
use afi920_ros2_driver.Parsers.Elements.{store_at, parse_elements}

-- The elements after each other, and what follows.
unfoldable pub serialize_elements {ℓ} : {A : Type ℓ} → (A → List ℕ) → List A → List ℕ → List ℕ
serialize_elements encode [] rest = rest
serialize_elements encode (x ∷ xs) rest = encode x ++ serialize_elements encode xs rest

-- An array with the elements written over its front, as many as it holds.
unfoldable pub overlay {ℓ} : {A : Type ℓ} → List A → List A → List A
overlay [] xs = []
overlay (y ∷ a) [] = y ∷ a
overlay (y ∷ a) (x ∷ xs) = x ∷ overlay a xs

module _ {A : Type 0} where
  overlay_nothing : (a : List A) → overlay a [] ≡ a
  unfolding overlay
  overlay_nothing [] = refl
  overlay_nothing (y ∷ a) = refl

  pub length-overlay : (a xs : List A) → length (overlay a xs) ≡ length a
  unfolding overlay
  length-overlay [] xs = refl
  length-overlay (y ∷ a) [] = refl
  length-overlay (y ∷ a) (x ∷ xs) = ap suc (length-overlay a xs)

  take_front :
      (k : ℕ) (a xs : List A) → k ≤ length a → k ≤ length xs → take k (overlay a xs) ≡ take k xs
  unfolding overlay
  take_front zero a xs ha hx = refl
  take_front (suc k) [] xs ha hx = absurd (omega arith)
  take_front (suc k) (y ∷ a) [] ha hx = absurd (omega arith)
  take_front (suc k) (y ∷ a) (x ∷ xs) ha hx =
      ap (λ (l : List A). x ∷ l) (take_front k a xs (omega arith) (omega arith))

  take_short : (m : ℕ) (xs : List A) → take (min (length xs) m) xs ≡ take m xs
  take_short zero xs = let e : min (length xs) 0 ≡ 0 = omega arith in ap (λ (k : ℕ). take k xs) e
  take_short (suc m) [] =
      let e : min 0 (suc m) ≡ 0 = omega arith in
      let nothing : List A = [] in ap (λ (k : ℕ). take k nothing) e
  take_short (suc m) (x ∷ xs) =
      let e : min (suc (length xs)) (suc m) ≡ suc (min (length xs) m) = omega arith in
      ap (λ (k : ℕ). take k (x ∷ xs)) e ∙ ap (λ (l : List A). x ∷ l) (take_short m xs)

  -- What counts of the array: the elements, as many as it holds.
  pub take-overlay :
      (m : ℕ) (a xs : List A)
      → length a ≡ m
      → take (min (min (length xs) m) m) (overlay a xs) ≡ take m xs
  unfolding overlay
  take-overlay m a xs h =
      let e : min (min (length xs) m) m ≡ min (length xs) m = omega arith in
      ap (λ (k : ℕ). take k (overlay a xs)) e
      ∙ take_front (min (length xs) m) a xs (omega arith) (omega arith)
      ∙ take_short m xs

  store_at-middle :
      (b : List A) (y : A) (a : List A) (x : A)
      → store_at (b ++ y ∷ a) (length b) x ≡ ok (b ++ x ∷ a)
  unfolding store_at
  store_at-middle [] y a x = refl
  store_at-middle (z ∷ b) y a x =
      ap (λ (r : Access (List A)). r >>= λ c. ok (z ∷ c)) (store_at-middle b y a x)

  parse_elements_full :
      (read : List ℕ → Access A) (p : List ℕ) (size n rounds i offset : ℕ) (a : List A)
      → n ≤ i
      → parse_elements read p size n rounds i offset a ≡ ok a
  unfolding parse_elements
  parse_elements_full read p size n zero i offset a h = refl
  parse_elements_full read p size n (suc rounds) i offset a h =
      rw (le→ltb i n h)
        (parse_elements_full read p size n rounds (i + 1) (offset + size) a (omega arith))

  -- A reader of what `encode` lays out, for the elements that satisfy `V`.
  pub record Decodes (read : List ℕ → Access A) (encode : A → List ℕ) (size : ℕ) (V : A → Type 0)
      : Type 0 where
    pub sized : (x : A) → length (encode x) ≡ size
    pub decoded : (x : A) (t : List ℕ) → V x → read (encode x ++ t) ≡ ok x

  module _ (read : List ℕ → Access A) (encode : A → List ℕ) (size : ℕ) (V : A → Type 0)
      (d : Decodes read encode size V) where
    pub length-serialize_elements :
        (xs : List A) (rest : List ℕ)
        → length (serialize_elements encode xs rest) ≡ length xs * size + length rest
    unfolding serialize_elements
    length-serialize_elements [] rest = omega arith
    length-serialize_elements (x ∷ xs) rest =
        length-append (encode x) (serialize_elements encode xs rest)
        ∙ grind (arith, d.sized x, length-serialize_elements xs rest)

    module _ (p : List ℕ) where
      abbrev Behind : List A → List ℕ → ℕ → Type 0
      Behind xs rest offset = drop offset p ≡ serialize_elements encode xs rest

      read_from :
          (xs : List A) (rest : List ℕ) (b a : List A) (i n offset : ℕ)
          → length b ≡ i
          → n ≡ min (i + length xs) (i + length a)
          → Behind xs rest offset
          → All V xs
          → parse_elements read p size n (length xs) i offset (b ++ a) ≡ ok (b ++ overlay a xs)
      unfolding parse_elements serialize_elements overlay
      read_from [] rest b a i n offset hb hn e v =
          ap (λ (c : List A). ok (b ++ c)) (sym (overlay_nothing a))
      read_from (x ∷ xs) rest b [] i n offset hb hn e v =
          parse_elements_full read p size n (length (x ∷ xs)) i offset (b ++ []) (omega arith)
      read_from (x ∷ xs) rest b (y ∷ a) i n offset hb hn e v =
          rw (lt→ltb i n (omega arith), ap read e ∙ d.decoded x _ v.0, stored)
            (ap (parse_elements read p size n (length xs) (i + 1) (offset + size))
                (sym (append_assoc b (x ∷ []) a))
              ∙ read_from xs rest (b ++ x ∷ []) a (i + 1) n (offset + size)
                  (omega (arith, length-append b (x ∷ []))) (omega arith)
                  (at_append p offset size (encode x) _ e (d.sized x)) v.1
              ∙ ap ok (append_assoc b (x ∷ []) (overlay a xs)))
        where
          stored : store_at (b ++ y ∷ a) i x ≡ ok (b ++ x ∷ a)
          stored = ap (λ (k : ℕ). store_at (b ++ y ∷ a) k x) (sym hb) ∙ store_at-middle b y a x

      -- Elements that stand at the offset are read over the front of the array.
      pub parse_elements-read :
          (xs : List A) (rest : List ℕ) (a : List A) (m offset : ℕ)
          → length a ≡ m
          → Behind xs rest offset
          → All V xs
          → parse_elements read p size (min (length xs) m) (length xs) 0 offset a
            ≡ ok (overlay a xs)
      parse_elements-read xs rest a m offset h e v =
          read_from xs rest [] a 0 (min (length xs) m) offset refl (omega arith) e v

      drop-serialize_elements :
          (xs : List A) (rest : List ℕ) (offset : ℕ)
          → Behind xs rest offset
          → drop (offset + length xs * size) p ≡ rest
      unfolding serialize_elements
      drop-serialize_elements [] rest offset e =
          let s : offset + 0 * size ≡ offset = omega arith in ap (λ (k : ℕ). drop k p) s ∙ e
      drop-serialize_elements (x ∷ xs) rest offset e =
          let s : offset + suc (length xs) * size ≡ offset + size + length xs * size =
            grind arith in
          ap (λ (k : ℕ). drop k p) s
          ∙ drop-serialize_elements xs rest (offset + size)
              (at_append p offset size (encode x) _ e (d.sized x))

      -- A section of elements at the offset, which is read over the array `a` of size `m`.
      module _ (xs : List A) (rest : List ℕ) (offset : ℕ)
          (e : drop offset p ≡ length xs ∷ serialize_elements encode xs rest) where
        pub section-read :
            {B : Type 0} (m : ℕ) (a : List A) (missing short : B) (k : ℕ → List A → Access B)
            → length a ≡ m
            → All V xs
            → with_count p offset size missing short (λ declared.
              parse_elements read p size (min declared m) declared 0 (offset + 1) a >>= k declared)
              ≡ k (length xs) (overlay a xs)
        section-read m a missing short k h v =
            let (here, first, er) = at_cons p offset (length xs) _ e in
            with_count-eq p offset size (length xs) missing short _ here first (
              omega (
                arith,
                length-drop {0} offset p,
                ap (λ (l : List ℕ). length l) e,
                length-serialize_elements xs rest,
              ))
            ∙ ap (λ (r : Access (List A)). r >>= k (length xs))
                (parse_elements-read xs rest a m (offset + 1) h er v)

        pub after_section : drop (offset + 1 + length xs * size) p ≡ rest
        after_section =
            let (_, _, er) = at_cons p offset (length xs) _ e in
            drop-serialize_elements xs rest (offset + 1) er
