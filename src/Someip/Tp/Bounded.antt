-- ===== src/Someip/Tp/Bounded.antt =====
-- What `GetPayload` hands out stays within the buffer.
use native.Mathlib.Decide.{dec_lt}
use afi920_ros2_driver.Base.{
  ◌==◌, ◌!=◌, if◌then◌else◌, length, Safe, ℕ, ◌+◌, ◌^◌, ◌≤◌, ◌<◌, ◌≡◌, Bool, true, false, ◌&&◌,
  some, List, arith,
}
use afi920_ros2_driver.Someip.Tp.{
  Reassembler, reset, is_timed_out, begin_segment, store_segment, feed,
}
use afi920_ros2_driver.Someip.Tp.Buffer.{length-written}
use afi920_ros2_driver.Someip.Tp.Feed.{store_segment-more, store_segment-last, feed-store}

-- The payload lies within the buffer.
abbrev pub IsReassembler : Reassembler → Type 0
IsReassembler r = r.total_size ≤ length r.buffer

abbrev pub FedWell : Bool × Reassembler → Type 0
FedWell fed = IsReassembler fed.1

pub reset-IsReassembler : (r : Reassembler) → IsReassembler (reset r)
unfolding reset
reset-IsReassembler r = omega arith

restart-IsReassembler :
    (b : Bool) (r : Reassembler) → IsReassembler r → IsReassembler (if b then reset r else r)
restart-IsReassembler true r h = reset-IsReassembler r
restart-IsReassembler false r h = h

begun-IsReassembler :
    (b : Bool) (r s : Reassembler)
    → IsReassembler r
    → IsReassembler s
    → IsReassembler (if b then s else r)
begun-IsReassembler true r s h k = k
begun-IsReassembler false r s h k = h

begin_segment-IsReassembler :
    (r : Reassembler) (session_id checked started : ℕ)
    → IsReassembler r
    → IsReassembler (begin_segment r session_id checked started)
unfolding begin_segment
begin_segment-IsReassembler r session_id checked started h =
    let r1 = if r.in_progress && session_id != r.session_id then reset r else r in
    let h1 = restart-IsReassembler (r.in_progress && session_id != r.session_id) r h in
    let h2 = restart-IsReassembler (r1.in_progress && is_timed_out 100 checked r1) r1 h1 in
    begun-IsReassembler _ _ _ h2 h2

store_segment-IsReassembler :
    (r : Reassembler) (xs : List ℕ) (offset : ℕ) (more : Bool)
    → offset + length xs < 2 ^ 64
    → IsReassembler r
    → Safe FedWell (store_segment r xs offset more)
store_segment-IsReassembler r xs offset true fits h =
    rw (store_segment-more r xs offset fits) (omega (arith, length-written r.buffer offset xs))
store_segment-IsReassembler r xs offset false fits h =
    rw (store_segment-last r xs offset fits) (omega (arith, length-written r.buffer offset xs))

-- `Feed` writes only within the buffer, whatever the segment and its offset, as long as the end of
-- the segment fits in 64 bits; and the payload stays within the buffer.
pub feed-IsReassembler :
    (r : Reassembler) (xs : List ℕ) (offset : ℕ) (more : Bool) (session_id checked started : ℕ)
    → offset + length xs < 2 ^ 64
    → IsReassembler r
    → Safe FedWell (feed r (some xs) offset more session_id checked started)
feed-IsReassembler r xs offset more session_id checked started fits h =
    elim (dec_lt 0 (length xs)) [
      | yes l ↦ rw (feed-store r xs offset more session_id checked started l) (
          store_segment-IsReassembler (begin_segment r session_id checked started) xs offset more
            fits (begin_segment-IsReassembler r session_id checked started h))
      | no l ↦ unfold feed in (rw (empty (length xs) l) h)
    ]
  where
    empty : (n : ℕ) → ¬ (0 < n) → (n == 0) ≡ true
    empty n l = ground arith
