-- ===== src/Someip/Tp/Reassembly.antt =====
-- A message sent in segments comes out whole, in whatever order its segments but the last arrive.
use afi920_ros2_driver.Base.{
  length, get_or, take, drop, All, length-take, length-drop, Access, ok, ◌>>=◌, ℕ, zero, suc, ◌+◌,
  ◌-◌, ◌*◌, ◌^◌, ◌≤◌, ◌<◌, ◌≡◌, refl, ap, ◌∙◌, ◌⊎◌, inl, inr, true, some, List, [], ◌∷◌, arith,
}
use afi920_ros2_driver.Someip.Tp.Feed.{feed-store, begin_segment-same, store_segment-more}
use native.Mathlib.Decide.{dec_lt}
use afi920_ros2_driver.Someip.Tp.{Reassembler, feed, default_timeout_ms}
use afi920_ros2_driver.Someip.Tp.Buffer.{written, written_inside, written_outside}

-- A segment of the message: its place, and the clock readings when it is fed.
pub record Arrival : Type 0 where
  pub offset : ℕ
  pub size : ℕ
  pub checked : ℕ
  pub started : ℕ

abbrev pub segment : List ℕ → Arrival → List ℕ
segment m a = take a.size (drop a.offset m)

-- The segment lies in the message, and its data is not empty.
abbrev pub Fits : List ℕ → Arrival → Type 0
Fits m a = (0 < a.size) × (a.offset + a.size ≤ length m)

-- It comes within the timeout of the message's start.
abbrev pub IsTimely : ℕ → Arrival → Type 0
IsTimely start a = a.checked ≤ start + default_timeout_ms * 1_000_000

abbrev pub Covers : Arrival → ℕ → Type 0
Covers a i = (a.offset ≤ i) × (i < a.offset + a.size)

abbrev pub Covered : List Arrival → ℕ → Type 0
Covered [] i = ⊥
Covered (a ∷ rest) i = Covers a i ⊎ Covered rest i

-- Feed segments that are not the last one.
unfoldable pub feed_all : Reassembler → List ℕ → ℕ → List Arrival → Access Reassembler
feed_all r m session_id [] = ok r
feed_all r m session_id (a ∷ rest) = do
  (_, r') ← feed r (some (segment m a)) a.offset true session_id a.checked a.started
  feed_all r' m session_id rest

pub length-segment : (m : List ℕ) (a : Arrival) → Fits m a → length (segment m a) ≡ a.size
length-segment m a f = omega (arith, length-take a.size (drop a.offset m), length-drop a.offset m)

pub get_or-take : (n : ℕ) (xs : List ℕ) (i : ℕ) → i < n → get_or (take n xs) i 0 ≡ get_or xs i 0
get_or-take zero xs i h = absurd (omega arith)
get_or-take (suc n) [] i h = refl
get_or-take (suc n) (x ∷ xs) zero h = refl
get_or-take (suc n) (x ∷ xs) (suc i) h = get_or-take n xs i (omega arith)

get_or-drop : (n : ℕ) (xs : List ℕ) (i : ℕ) → n ≤ i → get_or (drop n xs) (i - n) 0 ≡ get_or xs i 0
get_or-drop zero xs i h = let e : i - 0 ≡ i = omega arith in ap (λ (k : ℕ). get_or xs k 0) e
get_or-drop (suc n) [] i h = refl
get_or-drop (suc n) (x ∷ xs) zero h = absurd (omega arith)
get_or-drop (suc n) (x ∷ xs) (suc i) h =
    let e : suc i - suc n ≡ i - n = omega arith in
    ap (λ (k : ℕ). get_or (drop n xs) k 0) e ∙ get_or-drop n xs i (omega arith)

abbrev pub Agrees : List ℕ → List ℕ → ℕ → Type 0
Agrees m b i = get_or b i 0 ≡ get_or m i 0

-- A segment makes the buffer agree with the message where it covers it, and keeps agreement.
written_covered :
    (m b : List ℕ) (a : Arrival) (i : ℕ)
    → Fits m a
    → Covers a i
    → Agrees m (written b a.offset (segment m a)) i
written_covered m b a i f c =
    written_inside b a.offset (segment m a) i c.0 (omega (arith, length-segment m a f))
    ∙ get_or-take a.size (drop a.offset m) (i - a.offset) (omega arith)
    ∙ get_or-drop a.offset m i c.0

pub written-Agrees :
    (m b : List ℕ) (a : Arrival) (i : ℕ)
    → Fits m a
    → Covers a i ⊎ Agrees m b i
    → Agrees m (written b a.offset (segment m a)) i
written-Agrees m b a i f (inl c) = written_covered m b a i f c
written-Agrees m b a i f (inr e) = elim (dec_lt i a.offset) [
  | yes below ↦ written_outside b a.offset (segment m a) i (inl below) ∙ e
  | no above ↦ elim (dec_lt i (a.offset + a.size)) [
    | yes inside ↦ written_covered m b a i f (omega arith)
    | no beyond ↦
        written_outside b a.offset (segment m a) i (inr (omega (arith, length-segment m a f))) ∙ e
  ]
]

-- The buffer after some segments.
unfoldable pub written_all : List ℕ → List ℕ → List Arrival → List ℕ
written_all m b [] = b
written_all m b (a ∷ rest) = written_all m (written b a.offset (segment m a)) rest

pub written_all-Agrees :
    (m b : List ℕ) (rest : List Arrival) (i : ℕ)
    → All (Fits m) rest
    → Covered rest i ⊎ Agrees m b i
    → Agrees m (written_all m b rest) i
unfolding written_all
written_all-Agrees m b [] i f (inl c) = absurd c
written_all-Agrees m b [] i f (inr e) = e
written_all-Agrees m b (a ∷ rest) i f (inl (inl c)) =
    written_all-Agrees m (written b a.offset (segment m a)) rest i f.1
      (inr (written_covered m b a i f.0 c))
written_all-Agrees m b (a ∷ rest) i f (inl (inr c)) =
    written_all-Agrees m (written b a.offset (segment m a)) rest i f.1 (inl c)
written_all-Agrees m b (a ∷ rest) i f (inr e) =
    written_all-Agrees m (written b a.offset (segment m a)) rest i f.1
      (inr (written-Agrees m b a i f.0 (inr e)))

-- While a message is being reassembled, timely segments only fill the buffer.
pub feed_all-written :
    (r : Reassembler) (m : List ℕ) (rest : List Arrival)
    → r.in_progress ≡ true
    → length m < 2 ^ 64
    → All (Fits m) rest
    → All (IsTimely r.started_at) rest
    → feed_all r m r.session_id rest ≡ ok (record r { buffer = written_all m r.buffer rest })
unfolding feed_all written_all
feed_all-written r m [] live h f t = refl
feed_all-written r m (a ∷ rest) live h f t =
    rw
      (
        feed-store r (segment m a) a.offset true r.session_id a.checked a.started
            (omega (arith, length-segment m a f.0)),
        begin_segment-same r r.session_id a.checked a.started live refl t.0,
        store_segment-more r (segment m a) a.offset (omega (arith, length-segment m a f.0)),
      )
      (feed_all-written (record r { buffer = written r.buffer a.offset (segment m a) }) m rest live
        h f.1 t.1)
