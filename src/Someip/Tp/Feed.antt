-- ===== src/Someip/Tp/Feed.antt =====
-- `Feed` branch by branch.
use afi920_ros2_driver.Base.{
  ◌==◌, le→leb, length, ok, ℕ, ◌+◌, ◌*◌, ◌%◌, ◌^◌, ◌≤◌, ◌<◌, ◌≡◌, refl, ◌∙◌, ◌≢◌, ◌⊎◌, Bool, true,
  false, some, List, arith,
}
use afi920_ros2_driver.Someip.Tp.{
  Reassembler, reset, begin_segment, store_segment, feed, default_timeout_ms,
}
use afi920_ros2_driver.Someip.Tp.Buffer.{written, store-written, length-written}

module _ (r : Reassembler) (xs : List ℕ) (offset : ℕ) (h : offset + length xs < 2 ^ 64) where
  end_fits : (offset + length xs) % 2 ^ 64 ≡ offset + length xs
  end_fits = omega arith

  -- A segment with more to come is stored, and nothing else changes.
  pub store_segment-more :
      store_segment r xs offset true ≡ ok (false, record r { buffer = written r.buffer offset xs })
  unfolding store_segment
  store_segment-more = rw (end_fits, store-written r.buffer offset xs)

  -- The segment that is marked as the last completes the message.
  pub store_segment-last :
      store_segment r xs offset false
      ≡ ok (
        true,
        record r {
          buffer = written r.buffer offset xs;
          expected_total = offset + length xs;
          total_size = offset + length xs;
          in_progress = false;
        },
      )
  unfolding store_segment
  store_segment-last = rw (
    end_fits,
    store-written r.buffer offset xs,
    le→leb (offset + length xs) (length (written r.buffer offset xs))
        (omega (arith, length-written r.buffer offset xs)),
  )

-- The state in which a message begins.
abbrev pub begun : Reassembler → ℕ → ℕ → Reassembler
begun r session_id started = record r {
  in_progress = true;
  session_id = session_id;
  started_at = started;
  expected_total = 0;
}

module _ (r : Reassembler) (session_id checked started : ℕ) where
  pub begin_segment-idle :
      r.in_progress ≡ false
      → begin_segment r session_id checked started ≡ begun r session_id started
  unfolding begin_segment
  begin_segment-idle idle = ground arith

  pub begin_segment-same :
      r.in_progress ≡ true
      → r.session_id ≡ session_id
      → checked ≤ r.started_at + default_timeout_ms * 1_000_000
      → begin_segment r session_id checked started ≡ r
  unfolding begin_segment
  begin_segment-same live same timely = ground arith

  pub begin_segment-stale :
      r.in_progress ≡ true
      → (session_id ≢ r.session_id) ⊎ (r.started_at + default_timeout_ms * 1_000_000 < checked)
      → begin_segment r session_id checked started ≡ begun (reset r) session_id started
  unfolding begin_segment
  begin_segment-stale live stale = ground arith

-- A segment with data is stored after the checks.
pub feed-store :
    (r : Reassembler) (xs : List ℕ) (offset : ℕ) (more : Bool) (session_id checked started : ℕ)
    → 0 < length xs
    → feed r (some xs) offset more session_id checked started
      ≡ store_segment (begin_segment r session_id checked started) xs offset more
unfolding feed
feed-store r xs offset more session_id checked started h = rw (nonzero (length xs) h)
  where
    nonzero : (n : ℕ) → 0 < n → (n == 0) ≡ false
    nonzero n h = ground arith

-- While a message is being reassembled, a segment of another session, or one that comes more than
-- 100 ms after the start, is treated as if the reassembler had been reset first.
pub feed_restarts :
    (r : Reassembler) (xs : List ℕ) (offset : ℕ) (more : Bool) (session_id checked started : ℕ)
    → r.in_progress ≡ true
    → 0 < length xs
    → (session_id ≢ r.session_id) ⊎ (r.started_at + default_timeout_ms * 1_000_000 < checked)
    → feed r (some xs) offset more session_id checked started
      ≡ feed (reset r) (some xs) offset more session_id checked started
feed_restarts r xs offset more session_id checked started live h stale =
    feed-store r xs offset more session_id checked started h
    ∙ rw (
      begin_segment-stale r session_id checked started live stale,
      ← begin_segment-idle (reset r) session_id checked started (unfold reset in refl),
      feed-store (reset r) xs offset more session_id checked started h,
    )
