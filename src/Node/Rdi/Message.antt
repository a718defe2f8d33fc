-- ===== src/Node/Rdi/Message.antt =====
-- A message in segments reaches the check of the E2E header whole.
use afi920_ros2_driver.Base.{
  length, All, Access, ok, ◌>>=◌, ℕ, zero, suc, ◌+◌, ◌*◌, ◌^◌, ◌<◌, ◌≡◌, refl, sym, ap, ◌∙◌, ◌⊎◌,
  Bool, true, false, some, List, [], ◌∷◌, map, arith,
}
use afi920_ros2_driver.Someip.{SomeipHeader}
use afi920_ros2_driver.Someip.Tp.{Reassembler, begin_segment, feed}
use afi920_ros2_driver.Someip.Tp.Buffer.{written}
use afi920_ros2_driver.Someip.Tp.Feed.{feed-store, store_segment-more}
use afi920_ros2_driver.Someip.Tp.Reassembly.{
  Arrival, segment, Fits, IsTimely, Covers, Covered, feed_all, length-segment,
}
use afi920_ros2_driver.Someip.Tp.Complete.{feed_message, feed_message-payload}
use afi920_ros2_driver.Node.Types.{Node, Event, Clock}
use afi920_ros2_driver.Node.Rdi.{
  rdi_payload_received, rdi_segment_fed, reset_after, process_rdi_datagram,
}
use afi920_ros2_driver.Node.Rdi.Stream.{counted}
use afi920_ros2_driver.Node.Rdi.Segments.{IsSegmentHeader, segment_datagram, process-segment}

-- A segment that the sensor sends: its place, and the clocks when it is handled.
pub record Sent : Type 0 where
  pub units : ℕ
  pub size : ℕ
  pub clock : Clock

abbrev pub arrival_of : Sent → Arrival
arrival_of s = record {
  offset = s.units * 16;
  size = s.size;
  checked = s.clock.checked;
  started = s.clock.started;
}

abbrev pub IsSent : List ℕ → Sent → Type 0
IsSent m s = Fits m (arrival_of s) × (s.units < 2 ^ 28)

-- The node after so many datagrams, but for the reassembler.
abbrev pub seen : ℕ → Node → Node
seen zero n = n
seen (suc k) n = seen k (counted n)

seen_tp :
    (k : ℕ) (n : Node) (x r : Reassembler)
    → record (seen k (record n { rdi_tp = x })) { rdi_tp = r } ≡ record (seen k n) { rdi_tp = r }
seen_tp zero n x r = refl
seen_tp (suc k) n x r = seen_tp k (counted n) x r

feed-more :
    (r : Reassembler) (m : List ℕ) (session_id : ℕ) (a : Arrival)
    → Fits m a
    → length m < 2 ^ 64
    → (r1 : Reassembler) × (feed r (some (segment m a)) a.offset true session_id a.checked a.started
        ≡ ok (false, r1))
feed-more r m session_id a f small = (
  record (begin_segment r session_id a.checked a.started) {
    buffer = written (begin_segment r session_id a.checked a.started).buffer a.offset (segment m a);
  },
  feed-store r (segment m a) a.offset true session_id a.checked a.started
        (omega (arith, length-segment m a f))
      ∙ store_segment-more (begin_segment r session_id a.checked a.started) (segment m a) a.offset
          (omega (arith, length-segment m a f)),
)

module _ (h : SomeipHeader) (v : IsSegmentHeader h) (m : List ℕ) (small : length m < 2 ^ 64) where
  -- The segments that are not the last one.
  abbrev pub process_front : Node → List Sent → Access Node
  process_front n [] = ok n
  process_front n (s ∷ ss) =
      process_rdi_datagram n s.clock (segment_datagram h s.units 1 (segment m (arrival_of s)))
      >>= λ (n', _). process_front n' ss

  front_step :
      (n : Node) (s : Sent) (r1 : Reassembler)
      → s.units < 2 ^ 28
      → feed n.rdi_tp
          (some (segment m (arrival_of s)))
          (s.units * 16)
          true
          h.session_id
          s.clock.checked
          s.clock.started
        ≡ ok (false, r1)
      → process_rdi_datagram n s.clock (segment_datagram h s.units 1 (segment m (arrival_of s)))
        ≡ ok (record (counted n) { rdi_tp = r1 }, [])
  unfolding rdi_segment_fed
  front_step n s r1 hu e =
      process-segment h v s.units 1 (segment m (arrival_of s)) n s.clock hu (omega arith)
      ∙ ap (λ (x : Access (Bool × Reassembler)). x >>= rdi_segment_fed (counted n) s.clock) e

  front-fed :
      (n : Node) (ss : List Sent)
      → All (IsSent m) ss
      → (r : Reassembler) × (feed_all n.rdi_tp m h.session_id (map arrival_of ss) ≡ ok r)
        × (process_front n ss ≡ ok (record (seen (length ss) n) { rdi_tp = r }))
  unfolding feed_all
  front-fed n [] f = (n.rdi_tp, refl, refl)
  front-fed n (s ∷ ss) (f, fs) =
      let (r1, e1) = feed-more n.rdi_tp m h.session_id (arrival_of s) f.0 small in
      let (r, fed, done) = front-fed (record (counted n) { rdi_tp = r1 }) ss fs in
      (
        r,
        rw e1 fed,
        rw (front_step n s r1 f.1 e1) (done ∙ ap ok (seen_tp (length ss) (counted n) r1 r)),
      )

  -- All segments, the last one marked.
  abbrev pub process_message : Node → List Sent → Sent → Access (Node × List Event)
  process_message n front last = process_front n front >>= λ n'.
      process_rdi_datagram n' last.clock
        (segment_datagram h last.units 0 (segment m (arrival_of last)))

  IsSent-Fits : (ss : List Sent) → All (IsSent m) ss → All (Fits m) (map arrival_of ss)
  IsSent-Fits [] f = f
  IsSent-Fits (s ∷ ss) (f, fs) = (f.0, IsSent-Fits ss fs)

  -- A message comes in segments of one session, in datagrams whose offsets count units of 16 bytes,
  -- to a node whose reassembler is idle: within 100 ms of the first, in any order but with the marked
  -- last segment at the end, and covering the message. Then the node does with it what it does with
  -- the payload of a single datagram, and resets the reassembler.
  pub process_message-payload :
      (n : Node) (first : Sent) (rest : List Sent) (last : Sent)
      → n.rdi_tp.in_progress ≡ false
      → All (IsSent m) (first ∷ rest)
      → IsSent m last
      → All (IsTimely first.clock.started) (arrival_of last ∷ map arrival_of rest)
      → last.units * 16 + last.size ≡ length m
      → ((i : ℕ)
          → i < length m
          → Covers (arrival_of last) i ⊎ Covered (map arrival_of (first ∷ rest)) i)
      → (r : Reassembler) × (process_message n (first ∷ rest) last ≡ (
          rdi_payload_received
            (record (counted (seen (length (first ∷ rest)) n)) { rdi_tp = r })
            last.clock
            m
          >>= reset_after))
  unfolding rdi_segment_fed feed_message
  process_message-payload n first rest last idle fs f timely ends covers =
      let (r1, fed, front) = front-fed n (first ∷ rest) fs in
      let (r, e, whole, _) =
        feed_message-payload n.rdi_tp m h.session_id (arrival_of first) (arrival_of last)
          (map arrival_of rest) idle small (IsSent-Fits (first ∷ rest) fs) f.0 timely ends covers in
      let e' =
        sym (
          ap
            (λ (x : Access Reassembler). x >>= λ r'.
              feed r' (some (segment m (arrival_of last))) (last.units * 16) false h.session_id
                last.clock.checked last.clock.started)
            fed)
        ∙ e in
      (
        r,
        rw front (
            process-segment h v last.units 0 (segment m (arrival_of last))
              (record (seen (length (first ∷ rest)) n) { rdi_tp = r1 }) last.clock f.1 (omega arith)
            ∙ ap
                (λ (x : Access (Bool × Reassembler)).
                  x
                  >>= rdi_segment_fed
                      (counted (record (seen (length (first ∷ rest)) n) { rdi_tp = r1 }))
                      last.clock)
                e'
            ∙ ap
                (λ (l : List ℕ).
                  rdi_payload_received
                    (record (counted (seen (length (first ∷ rest)) n)) { rdi_tp = r }) last.clock l
                  >>= reset_after)
                whole),
      )
