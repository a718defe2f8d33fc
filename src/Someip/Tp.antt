-- ===== src/Someip/Tp.antt =====
-- `SomeipTpReassembler` of src/someip_parser.cpp. A reading of the steady clock is a number of
-- nanoseconds; `Feed` reads it at most twice, for the timeout and for the start of a message.
pub mod Buffer
pub mod Feed
pub mod Reassembly
pub mod Complete
pub mod Bounded
use afi920_ros2_driver.Base.{
  ltb, leb, ◌==◌, ◌!=◌, if◌then◌else◌, length, take, drop, replicate, Access, ok, fault, ◌>>=◌, ℕ,
  ◌+◌, ◌-◌, ◌*◌, ◌%◌, ◌^◌, Bool, true, false, not, ◌&&◌, Option, none, some, List, [], ◌++◌,
}

pub record Reassembler : Type 0 where
  pub buffer : List ℕ
  pub total_size : ℕ
  pub expected_total : ℕ
  pub in_progress : Bool
  pub session_id : ℕ
  pub started_at : ℕ

-- `SomeipTpReassembler() = default`
abbrev pub reassembler_init : Reassembler
reassembler_init = record {
  buffer = [];
  total_size = 0;
  expected_total = 0;
  in_progress = false;
  session_id = 0;
  started_at = 0;
}

-- The bytes that `GetPayload` and `GetPayloadSize` hand out.
unfoldable pub get_payload : Reassembler → List ℕ
get_payload r = take r.total_size r.buffer

unfoldable pub is_timed_out : ℕ → ℕ → Reassembler → Bool
is_timed_out timeout_ms now r =
    if not r.in_progress then false else ltb (timeout_ms * 1_000_000) (now - r.started_at)

unfoldable pub reset : Reassembler → Reassembler
reset r = record r { total_size = 0; expected_total = 0; in_progress = false; session_id = 0 }

-- `buffer_.resize(n)`
unfoldable pub resize : ℕ → List ℕ → List ℕ
resize n b = if ltb n (length b) then take n b else b ++ replicate (n - length b) 0

-- `std::memcpy(b + offset, xs, size of xs)`
unfoldable pub store : List ℕ → ℕ → List ℕ → Access (List ℕ)
store b offset xs =
    if ltb (length b) (offset + length xs)
    then fault
    else ok (take offset b ++ xs ++ drop (offset + length xs) b)

abbrev pub default_timeout_ms : ℕ
default_timeout_ms = 100

-- The checks of `Feed` up to the start of a message.
unfoldable pub begin_segment : Reassembler → ℕ → ℕ → ℕ → Reassembler
unfolding reset is_timed_out
begin_segment r session_id checked started =
    let r1 = if r.in_progress && session_id != r.session_id then reset r else r in
    let r2 =
      if r1.in_progress && is_timed_out default_timeout_ms checked r1 then reset r1 else r1 in
    if not r2.in_progress
    then record r2 {
      in_progress = true;
      session_id = session_id;
      started_at = started;
      expected_total = 0;
    }
    else r2

-- The rest of `Feed`, with `size_t end` written out.
unfoldable pub store_segment : Reassembler → List ℕ → ℕ → Bool → Access (Bool × Reassembler)
store_segment r xs offset_bytes more_segments =
    let end = (offset_bytes + length xs) % 2 ^ 64 in
    let grown = if ltb (length r.buffer) end then resize end r.buffer else r.buffer in
    do
      b ← store grown offset_bytes xs
      if not more_segments
          then (if leb end (length b)
              then ok (
                true,
                record r {
                  buffer = b;
                  expected_total = end;
                  total_size = end;
                  in_progress = false;
                },
              )
              else ok (false, record r { buffer = b; expected_total = end }))
          else ok (false, record r { buffer = b })

unfoldable pub feed :
    Reassembler → Option (List ℕ) → ℕ → Bool → ℕ → ℕ → ℕ → Access (Bool × Reassembler)
feed r none offset_bytes more_segments session_id checked started = ok (false, r)
feed r (some xs) offset_bytes more_segments session_id checked started =
    if length xs == 0
    then ok (false, r)
    else store_segment (begin_segment r session_id checked started) xs offset_bytes more_segments
