-- ===== src/Someip/Tp/Buffer.antt =====
-- What a segment leaves in the buffer: the bytes at the segment's place are its own, and every other
-- byte is as it was, with zeros behind the old end.
use afi920_ros2_driver.Base.{
  ltb, if◌then◌else◌, lt→ltb, le→ltb, length, get_or, take, drop, replicate, length-append,
  length-take, length-drop, length-replicate, ok, ℕ, zero, suc, ◌+◌, ◌-◌, ◌≤◌, ◌<◌, max, ◌≡◌, refl,
  ap, ◌∙◌, ◌⊎◌, List, [], ◌∷◌, ◌++◌, arith,
}
use native.Mathlib.Decide.{dec_lt}
use afi920_ros2_driver.Someip.Tp.{resize, store}

over_front :
    (xs g : List ℕ) (i : ℕ)
    → length xs ≤ length g
    → get_or (xs ++ drop (length xs) g) i 0
      ≡ (if ltb i (length xs) then get_or xs i 0 else get_or g i 0)
over_front [] g i h = ground arith
over_front (x ∷ xs) [] i h = absurd (omega arith)
over_front (x ∷ xs) (y ∷ g) zero h = ground arith
over_front (x ∷ xs) (y ∷ g) (suc i) h = ground (arith, over_front xs g i)

-- `xs` written over `g` from `offset` on.
abbrev pub splice : List ℕ → ℕ → List ℕ → List ℕ
splice g offset xs = take offset g ++ xs ++ drop (offset + length xs) g

drop-suc : (n k : ℕ) (y : ℕ) (g : List ℕ) → drop (suc n + k) (y ∷ g) ≡ drop (n + k) g
drop-suc n k y g = let e : suc n + k ≡ suc (n + k) = omega arith in ap (λ (m : ℕ). drop m (y ∷ g)) e

splice-suc :
    (y : ℕ) (g : List ℕ) (offset : ℕ) (xs : List ℕ)
    → splice (y ∷ g) (suc offset) xs ≡ y ∷ splice g offset xs
splice-suc y g offset xs = rw (drop-suc offset (length xs) y g)

splice-zero : (g xs : List ℕ) → splice g 0 xs ≡ xs ++ drop (length xs) g
splice-zero g xs =
    let e : 0 + length xs ≡ length xs = omega arith in ap (λ (m : ℕ). xs ++ drop m g) e

pub get_or-splice_inside :
    (g : List ℕ) (offset : ℕ) (xs : List ℕ) (i : ℕ)
    → offset + length xs ≤ length g
    → offset ≤ i
    → i < offset + length xs
    → get_or (splice g offset xs) i 0 ≡ get_or xs (i - offset) 0
get_or-splice_inside g zero xs i h l u = ground (arith, splice-zero g xs, over_front xs g i)
get_or-splice_inside [] (suc offset) xs i h l u = absurd (omega arith)
get_or-splice_inside (y ∷ g) (suc offset) xs zero h l u = absurd (omega arith)
get_or-splice_inside (y ∷ g) (suc offset) xs (suc i) h l u = rw (splice-suc y g offset xs) (
    get_or-splice_inside g offset xs i (omega arith) (omega arith) (omega arith)
    ∙ ap (λ (k : ℕ). get_or xs k 0) (omega arith))

pub get_or-splice_outside :
    (g : List ℕ) (offset : ℕ) (xs : List ℕ) (i : ℕ)
    → offset + length xs ≤ length g
    → (i < offset) ⊎ (offset + length xs ≤ i)
    → get_or (splice g offset xs) i 0 ≡ get_or g i 0
get_or-splice_outside g zero xs i h o = ground (arith, splice-zero g xs, over_front xs g i)
get_or-splice_outside [] (suc offset) xs i h o = absurd (omega arith)
get_or-splice_outside (y ∷ g) (suc offset) xs zero h o = refl
get_or-splice_outside (y ∷ g) (suc offset) xs (suc i) h o =
    rw (splice-suc y g offset xs) (get_or-splice_outside g offset xs i (omega arith) (omega arith))

pub length-splice :
    (g : List ℕ) (offset : ℕ) (xs : List ℕ)
    → offset + length xs ≤ length g
    → length (splice g offset xs) ≡ length g
length-splice g offset xs h =
    length-append (take offset g ++ xs) (drop (offset + length xs) g)
    ∙ omega (
      arith,
      length-append (take offset g) xs,
      length-take offset g,
      length-drop (offset + length xs) g,
    )

-- The buffer with room for `end` bytes.
abbrev pub grow : ℕ → List ℕ → List ℕ
grow end b = if ltb (length b) end then resize end b else b

get_or-replicate : (n i : ℕ) → get_or (replicate {A = ℕ} n 0) i 0 ≡ 0
get_or-replicate zero i = refl
get_or-replicate (suc n) zero = refl
get_or-replicate (suc n) (suc i) = get_or-replicate n i

get_or-zeros : (b : List ℕ) (n i : ℕ) → get_or (b ++ replicate n 0) i 0 ≡ get_or b i 0
get_or-zeros [] n i = get_or-replicate n i
get_or-zeros (x ∷ b) n zero = refl
get_or-zeros (x ∷ b) n (suc i) = get_or-zeros b n i

grow_longer :
    (end : ℕ) (b : List ℕ) → length b < end → grow end b ≡ b ++ replicate (end - length b) 0
unfolding resize
grow_longer end b h = rw (lt→ltb (length b) end h, le→ltb end (length b) (omega arith))

pub get_or-grow : (end : ℕ) (b : List ℕ) (i : ℕ) → get_or (grow end b) i 0 ≡ get_or b i 0
get_or-grow end b i = elim (dec_lt (length b) end) [
  | yes h ↦ rw (grow_longer end b h) (get_or-zeros b (end - length b) i)
  | no h ↦ rw (le→ltb (length b) end (omega arith))
]

pub length-grow : (end : ℕ) (b : List ℕ) → length (grow end b) ≡ max (length b) end
length-grow end b = elim (dec_lt (length b) end) [
  | yes h ↦ rw (grow_longer end b h) (
      length-append b (replicate (end - length b) 0)
      ∙ omega (arith, length-replicate {A = ℕ} (end - length b) 0))
  | no h ↦ rw (le→ltb (length b) end (omega arith)) (omega arith)
]

-- The buffer after the segment `xs` at `offset`.
pub written : List ℕ → ℕ → List ℕ → List ℕ
written b offset xs = splice (grow (offset + length xs) b) offset xs

module _ (b : List ℕ) (offset : ℕ) (xs : List ℕ) where
  abbrev room : List ℕ
  room = grow (offset + length xs) b

  fits : offset + length xs ≤ length room
  fits = omega (arith, length-grow (offset + length xs) b)

  pub store-written : store room offset xs ≡ ok (written b offset xs)
  unfolding store written
  store-written = rw (le→ltb (length room) (offset + length xs) fits)

  pub length-written : length (written b offset xs) ≡ max (length b) (offset + length xs)
  unfolding written
  length-written = length-splice room offset xs fits ∙ length-grow (offset + length xs) b

  pub written_inside :
      (i : ℕ)
      → offset ≤ i
      → i < offset + length xs
      → get_or (written b offset xs) i 0 ≡ get_or xs (i - offset) 0
  unfolding written
  written_inside i l u = get_or-splice_inside room offset xs i fits l u

  pub written_outside :
      (i : ℕ)
      → (i < offset) ⊎ (offset + length xs ≤ i)
      → get_or (written b offset xs) i 0 ≡ get_or b i 0
  unfolding written
  written_outside i o =
      get_or-splice_outside room offset xs i fits o ∙ get_or-grow (offset + length xs) b i
