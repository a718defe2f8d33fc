-- ===== src/Someip/Tp/Complete.antt =====
-- What `Feed` reports as complete: the message, where its segments cover it, and bytes of an earlier
-- message, where they do not.
use afi920_ros2_driver.Base.{
  length, get_or, take, All, length-take, Access, ok, ◌>>=◌, ℕ, suc, ◌+◌, ◌^◌, ◌≤◌, ◌<◌, ◌≡◌, refl,
  ap, ◌∙◌, ◌⊎◌, inl, inr, Bool, true, false, some, List, [], ◌∷◌, arith,
}
use afi920_ros2_driver.Someip.Tp.{Reassembler, feed, get_payload}
use afi920_ros2_driver.Someip.Tp.Buffer.{written, length-written, written_outside}
use afi920_ros2_driver.Someip.Tp.Feed.{
  begun, feed-store, store_segment-more, store_segment-last, begin_segment-idle, begin_segment-same,
}
use afi920_ros2_driver.Someip.Tp.Reassembly.{
  Arrival, segment, Fits, IsTimely, Agrees, feed_all, length-segment, written_all, feed_all-written,
  Covers, Covered, written-Agrees, get_or-take, written_all-Agrees,
}

take-Agrees :
    (m b : List ℕ)
    → length m ≤ length b
    → ((i : ℕ) → i < length m → Agrees m b i)
    → take (length m) b ≡ m
take-Agrees [] b h e = refl
take-Agrees (x ∷ m) [] h e = absurd (omega arith)
take-Agrees (x ∷ m) (y ∷ b) h e =
    λ i. e 0 (omega arith) i ∷ take-Agrees m b (omega arith) (λ j hj. e (suc j) (omega arith)) i

-- All segments of a message, the marked one last.
unfoldable pub feed_message :
    Reassembler → List ℕ → ℕ → List Arrival → Arrival → Access (Bool × Reassembler)
feed_message r m session_id front last = do
  r' ← feed_all r m session_id front
  feed r' (some (segment m last)) last.offset false session_id last.checked last.started

module _ (r : Reassembler) (m : List ℕ) (session_id : ℕ) (first last : Arrival)
    (rest : List Arrival) (idle : r.in_progress ≡ false) (small : length m < 2 ^ 64) where
  abbrev start : Reassembler
  start = begun r session_id first.started

  -- The buffer after all segments.
  abbrev filled : List ℕ
  filled = written (written_all m r.buffer (first ∷ rest)) last.offset (segment m last)

  abbrev final : Reassembler
  final = record start {
    buffer = filled;
    expected_total = last.offset + length (segment m last);
    total_size = last.offset + length (segment m last);
    in_progress = false;
  }

  fed :
      All (Fits m) (first ∷ rest)
      → All (IsTimely first.started) rest
      → feed_all r m session_id (first ∷ rest)
        ≡ ok (record start { buffer = written_all m r.buffer (first ∷ rest) })
  unfolding feed_all written_all
  fed f t =
      rw
        (
          feed-store r (segment m first) first.offset true session_id first.checked first.started
              (omega (arith, length-segment m first f.0)),
          begin_segment-idle r session_id first.checked first.started idle,
          store_segment-more start (segment m first) first.offset
              (omega (arith, length-segment m first f.0)),
        )
        (feed_all-written
          (record start { buffer = written r.buffer first.offset (segment m first) }) m rest refl
          small f.1 t)

  completes :
      All (Fits m) (first ∷ rest)
      → Fits m last
      → All (IsTimely first.started) (last ∷ rest)
      → feed_message r m session_id (first ∷ rest) last ≡ ok (true, final)
  unfolding feed_message
  completes f fl t = rw (
    fed f t.1,
    feed-store (record start { buffer = written_all m r.buffer (first ∷ rest) }) (segment m last)
        last.offset false session_id last.checked last.started
        (omega (arith, length-segment m last fl)),
    begin_segment-same (record start { buffer = written_all m r.buffer (first ∷ rest) }) session_id
        last.checked last.started refl refl t.0,
    store_segment-last (record start { buffer = written_all m r.buffer (first ∷ rest) })
        (segment m last) last.offset (omega (arith, length-segment m last fl)),
  )

  filled-Agrees :
      All (Fits m) (first ∷ rest)
      → Fits m last
      → (i : ℕ) → Covers last i ⊎ Covered (first ∷ rest) i
      → Agrees m filled i
  filled-Agrees f fl i (inl c) = written-Agrees m _ last i fl (inl c)
  filled-Agrees f fl i (inr c) =
      written-Agrees m _ last i fl (inr (written_all-Agrees m r.buffer (first ∷ rest) i f (inl c)))

  -- Segments of one message and one session are fed to an idle reassembler, all within 100 ms of the
  -- first, in any order but with the segment marked as the last at the end. If together they cover
  -- the message, `Feed` then answers true, and the payload is the message, whatever an earlier
  -- message left in the buffer.
  pub feed_message-payload :
      All (Fits m) (first ∷ rest)
      → Fits m last
      → All (IsTimely first.started) (last ∷ rest)
      → last.offset + last.size ≡ length m
      → ((i : ℕ) → i < length m → Covers last i ⊎ Covered (first ∷ rest) i)
      → (r' : Reassembler) × (feed_message r m session_id (first ∷ rest) last ≡ ok (true, r'))
        × (get_payload r' ≡ m)
        × (r'.in_progress ≡ false)
  unfolding get_payload
  feed_message-payload f fl t ends covers = (
    final,
    completes f fl t,
    ap (λ (n : ℕ). take n filled) whole
        ∙ take-Agrees m filled long (λ i h. filled-Agrees f fl i (covers i h)),
    refl,
  )
    where
      whole : last.offset + length (segment m last) ≡ length m
      whole = omega (arith, length-segment m last fl)

      long : length m ≤ length filled
      long = omega (
        arith,
        length-written (written_all m r.buffer (first ∷ rest)) last.offset (segment m last),
        length-segment m last fl,
      )

-- The defect: an idle reassembler that is fed the last segment alone, with the segments before it
-- lost or still to come, answers true at once. The payload has the size of the whole message, and
-- in place of the missing bytes it holds those that were in the buffer before.
pub feed_last_alone :
    (r : Reassembler) (xs : List ℕ) (offset session_id checked started : ℕ)
    → r.in_progress ≡ false
    → 0 < length xs
    → offset + length xs < 2 ^ 64
    → (r' : Reassembler) × (feed r (some xs) offset false session_id checked started
        ≡ ok (true, r'))
      × (length (get_payload r') ≡ offset + length xs)
      × ((i : ℕ) → i < offset → get_or (get_payload r') i 0 ≡ get_or r.buffer i 0)
unfolding get_payload
feed_last_alone r xs offset session_id checked started idle h small = (
  record (begun r session_id started) {
    buffer = written r.buffer offset xs;
    expected_total = offset + length xs;
    total_size = offset + length xs;
    in_progress = false;
  },
  feed-store r xs offset false session_id checked started h
      ∙ rw (begin_segment-idle r session_id checked started idle)
          (store_segment-last (begun r session_id started) xs offset small),
  omega (
    arith,
    length-take (offset + length xs) (written r.buffer offset xs),
    length-written r.buffer offset xs,
  ),
  λ i below.
      get_or-take (offset + length xs) (written r.buffer offset xs) i (omega arith)
      ∙ written_outside r.buffer offset xs i (inl below),
)
