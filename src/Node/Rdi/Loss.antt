-- ===== src/Node/Rdi/Loss.antt =====
-- The count of lost packets, which `deliver_rdi_frame` keeps in 32 bits.
use afi920_ros2_driver.Base.{
  ◌!=◌, if◌then◌else◌, Bool-cases, length, All, ℕ, suc, ◌+◌, ◌-◌, ◌%◌, ◌^◌, ◌<◌, ◌≡◌, refl, inl,
  inr, true, false, List, [], ◌∷◌, arith,
}
use afi920_ros2_driver.Parsers.RdiTypes.{RdiFrame}
use afi920_ros2_driver.Node.Types.{Node}
use afi920_ros2_driver.Node.Rdi.{count_packet, deliver_rdi_frame, on_rdi_frame}

abbrev pub counter_of : RdiFrame → ℕ
counter_of frame = frame.message.header.message_counter

-- Frames are delivered one after the other.
abbrev pub deliver_all : Node → ℕ → List RdiFrame → Node
deliver_all n stamp [] = n
deliver_all n stamp (frame ∷ frames) = deliver_all (deliver_rdi_frame n frame stamp).0 stamp frames

-- Since the frame with the counter `start`, every counter up to the last one was received or lost.
pub record IsBalanced (start : ℕ) (n : Node) : Type 0 where
  pub running : n.first_rdi ≡ false
  pub fits : n.last_rdi_counter < 2 ^ 32
  pub balance :
      (n.total_packets + n.lost_packets + start) % 2 ^ 32 ≡ (n.last_rdi_counter + 1) % 2 ^ 32

gap_sum :
    (total lost start last c : ℕ)
    → last < 2 ^ 32
    → c < 2 ^ 32
    → (total + lost + start) % 2 ^ 32 ≡ (last + 1) % 2 ^ 32
    → ((total + 1) % 2 ^ 32
          + (if c != (last + 1) % 2 ^ 32
              then (lost + (c + 2 ^ 32 - (last + 1) % 2 ^ 32) % 2 ^ 32) % 2 ^ 32
              else lost)
          + start)
        % 2 ^ 32
      ≡ (c + 1) % 2 ^ 32
gap_sum total lost start last c h hc e = ground arith

count_packet-IsBalanced :
    (start : ℕ) (n : Node) (c : ℕ)
    → c < 2 ^ 32
    → IsBalanced start n
    → IsBalanced start (count_packet n c)
unfolding count_packet
count_packet-IsBalanced start n c hc b = record {
  running = refl;
  fits = hc;
  balance =
      rw b.running
        (gap_sum n.total_packets n.lost_packets start n.last_rdi_counter c b.fits hc b.balance);
}

pub on_rdi_frame_state :
    (n : Node) (frame : RdiFrame) (stamp : ℕ)
    → (on_rdi_frame n frame stamp).0
      ≡ record n { rdi_frame_count = (n.rdi_frame_count + 1) % 2 ^ 64 }
unfolding on_rdi_frame
on_rdi_frame_state n frame stamp = elim (Bool-cases n.pub_pointcloud) [
  | inl e ↦ rw e refl
  | inr e ↦ rw e refl
]

counted_frame-IsBalanced :
    (start k : ℕ) (n : Node)
    → IsBalanced start n
    → IsBalanced start (record n { rdi_frame_count = k })
counted_frame-IsBalanced start k n b = record {
  running = b.running;
  fits = b.fits;
  balance = b.balance;
}

deliver_rdi_frame-IsBalanced :
    (start stamp : ℕ) (n : Node) (frame : RdiFrame)
    → counter_of frame < 2 ^ 32
    → IsBalanced start n
    → IsBalanced start (deliver_rdi_frame n frame stamp).0
unfolding deliver_rdi_frame
deliver_rdi_frame-IsBalanced start stamp n frame h b =
    rw (on_rdi_frame_state (count_packet n (counter_of frame)) frame stamp)
      (counted_frame-IsBalanced start _ _ (count_packet-IsBalanced start n (counter_of frame) h b))

abbrev pub HasCounter : RdiFrame → Type 0
HasCounter frame = counter_of frame < 2 ^ 32

deliver_all-IsBalanced :
    (start stamp : ℕ) (n : Node) (frames : List RdiFrame)
    → All HasCounter frames
    → IsBalanced start n
    → IsBalanced start (deliver_all n stamp frames)
deliver_all-IsBalanced start stamp n [] h b = b
deliver_all-IsBalanced start stamp n (frame ∷ frames) h b =
    deliver_all-IsBalanced start stamp (deliver_rdi_frame n frame stamp).0 frames h.1
      (deliver_rdi_frame-IsBalanced start stamp n frame h.0 b)

-- Before the first frame.
pub record IsFresh (n : Node) : Type 0 where
  pub first : n.first_rdi ≡ true
  pub none_received : n.total_packets ≡ 0
  pub none_lost : n.lost_packets ≡ 0

first_frame-IsBalanced :
    (stamp : ℕ) (n : Node) (frame : RdiFrame)
    → HasCounter frame
    → IsFresh n
    → IsBalanced (counter_of frame) (deliver_rdi_frame n frame stamp).0
unfolding deliver_rdi_frame count_packet
first_frame-IsBalanced stamp n frame h f =
    rw (on_rdi_frame_state (count_packet n (counter_of frame)) frame stamp) (record {
      running = refl;
      fits = h;
      balance = rw (f.first, f.none_received, f.none_lost) (omega arith);
    })

-- A node that has received nothing is given frames, in any order and with any counters of 32 bits.
-- Then modulo 2^32 the numbers of packets received and lost add up to the number of counters from
-- the first frame's to the last one's, both included.
pub deliver_all_balance :
    (stamp : ℕ) (n : Node) (frame : RdiFrame) (frames : List RdiFrame)
    → IsFresh n
    → HasCounter frame
    → All HasCounter frames
    → IsBalanced (counter_of frame) (deliver_all n stamp (frame ∷ frames))
deliver_all_balance stamp n frame frames f h hs =
    deliver_all-IsBalanced (counter_of frame) stamp (deliver_rdi_frame n frame stamp).0 frames hs
      (first_frame-IsBalanced stamp n frame h f)

-- The counters grow, from one above `last` on.
abbrev pub Ascending : ℕ → List RdiFrame → Type 0
Ascending last [] = Unit
Ascending last (frame ∷ frames) =
    (last < counter_of frame) × HasCounter frame × Ascending (counter_of frame) frames

pub record IsExact (start received : ℕ) (n : Node) : Type 0 where
  pub running : n.first_rdi ≡ false
  pub fits : n.last_rdi_counter < 2 ^ 32
  pub received_count : n.total_packets ≡ received % 2 ^ 32
  pub lost_count : n.lost_packets + received + start ≡ n.last_rdi_counter + 1

gap_exact :
    (lost received start last c : ℕ)
    → last < c
    → c < 2 ^ 32
    → lost + received + start ≡ last + 1
    → (if c != (last + 1) % 2 ^ 32
          then (lost + (c + 2 ^ 32 - (last + 1) % 2 ^ 32) % 2 ^ 32) % 2 ^ 32
          else lost)
        + (received + 1)
        + start
      ≡ c + 1
gap_exact lost received start last c h hc e = ground arith

deliver_rdi_frame-IsExact :
    (start received stamp : ℕ) (n : Node) (frame : RdiFrame)
    → n.last_rdi_counter < counter_of frame
    → HasCounter frame
    → IsExact start received n
    → IsExact start (received + 1) (deliver_rdi_frame n frame stamp).0
      × ((deliver_rdi_frame n frame stamp).0.last_rdi_counter ≡ counter_of frame)
unfolding deliver_rdi_frame count_packet
deliver_rdi_frame-IsExact start received stamp n frame h hc x =
    rw (on_rdi_frame_state (count_packet n (counter_of frame)) frame stamp) (
      record {
        running = refl;
        fits = hc;
        received_count = omega (arith, x.received_count, x.lost_count);
        lost_count = rw x.running (
            gap_exact n.lost_packets received start n.last_rdi_counter (counter_of frame) h hc
              x.lost_count);
      },
      refl,
    )

deliver_all-IsExact :
    (start received stamp : ℕ) (n : Node) (frames : List RdiFrame)
    → Ascending n.last_rdi_counter frames
    → IsExact start received n
    → IsExact start (received + length frames) (deliver_all n stamp frames)
deliver_all-IsExact start received stamp n [] a x =
    let e : received + 0 ≡ received = omega arith in rw e x
deliver_all-IsExact start received stamp n (frame ∷ frames) (h, hc, a) x =
    let e : received + suc (length frames) ≡ received + 1 + length frames = omega arith in
    let (y, last) = deliver_rdi_frame-IsExact start received stamp n frame h hc x in
    rw e (
      deliver_all-IsExact start (received + 1) stamp (deliver_rdi_frame n frame stamp).0 frames
        (rw last a) y)

first_frame-IsExact :
    (stamp : ℕ) (n : Node) (frame : RdiFrame)
    → HasCounter frame
    → IsFresh n
    → IsExact (counter_of frame) 1 (deliver_rdi_frame n frame stamp).0
      × ((deliver_rdi_frame n frame stamp).0.last_rdi_counter ≡ counter_of frame)
unfolding deliver_rdi_frame count_packet
first_frame-IsExact stamp n frame h f =
    rw (on_rdi_frame_state (count_packet n (counter_of frame)) frame stamp) (
      record {
        running = refl;
        fits = h;
        received_count = rw f.none_received refl;
        lost_count = rw (f.first, f.none_lost) (omega arith);
      },
      refl,
    )

-- A node that has received nothing is given frames whose counters of 32 bits grow. Then the
-- packets are counted modulo 2^32, and the number of lost packets is exactly that of the counters that
-- were skipped: lost, received and the first counter add up to one more than the last counter.
pub deliver_all_lost :
    (stamp : ℕ) (n : Node) (frame : RdiFrame) (frames : List RdiFrame)
    → IsFresh n
    → HasCounter frame
    → Ascending (counter_of frame) frames
    → IsExact (counter_of frame) (1 + length frames) (deliver_all n stamp (frame ∷ frames))
deliver_all_lost stamp n frame frames f h a =
    let (x, last) = first_frame-IsExact stamp n frame h f in
    deliver_all-IsExact (counter_of frame) 1 stamp (deliver_rdi_frame n frame stamp).0 frames
      (rw last a) x

-- A frame with the counter of the one before it, which is not the first, adds 4294967295 to the lost
-- packets modulo 2^32.
pub deliver_rdi_frame_repeated :
    (stamp : ℕ) (n : Node) (frame : RdiFrame)
    → n.first_rdi ≡ false
    → n.last_rdi_counter ≡ counter_of frame
    → HasCounter frame
    → (deliver_rdi_frame n frame stamp).0.lost_packets ≡ (n.lost_packets + 4294967295) % 2 ^ 32
unfolding deliver_rdi_frame count_packet
deliver_rdi_frame_repeated stamp n frame f e h =
    rw (on_rdi_frame_state (count_packet n (counter_of frame)) frame stamp, f, e) (ground arith)
