-- ===== src/Transport/StreamReceiver.antt =====
-- `StreamReceiver` of include/afi920_driver/transport/stream_receiver.hpp: what the node asks of a
-- receiver, and what its comments promise. `S` is the state of a receiver, and `W` what the system
-- will answer to its calls.
use afi920_ros2_driver.Base.{
  ℤ, pos, negsuc, length, ℕ, ◌^◌, ◌≤◌, ◌<◌, ◌≡◌, ◌⊎◌, Bool, true, false, List, [],
}

-- What a call of `Receive` returns and writes at the front of the buffer, the receiver, and the
-- answers that are left; or it waits for an answer.
pub data Outcome {ℓ κ} (S : Type ℓ) (W : Type κ) : Type (ℓ ⊔ κ) where
  result : ℤ → List ℕ → S → W → Outcome S W
  waits : Outcome S W

pub record StreamReceiver {ℓ κ} (S : Type ℓ) (W : Type κ) : Type (ℓ ⊔ κ) where
  pub connect : S → W → ℤ × S × W
  pub receive : S → W → ℕ → Outcome S W
  pub close : S → S
  pub is_open : S → Bool

-- Number of bytes received, 0 on timeout, negative on error.
abbrev pub IsCount : ℤ → List ℕ → Type 0
IsCount (pos n) xs = (n ≡ 0) ⊎ (n ≡ length xs)
IsCount (negsuc n) xs = Unit

-- Whatever is returned, what was written fits in the buffer of the size that was given.
abbrev pub Promised {ℓ κ} : {S : Type ℓ} {W : Type κ} → ℕ → Outcome S W → Type 0
Promised size (result rc xs s w) = (length xs ≤ size) × IsCount rc xs
Promised size waits = Unit

-- `Connect` returns 0 exactly when the receiver is open afterwards; after `Close` it is not, and
-- `Receive` returns an error at once.
pub record IsStreamReceiver {ℓ κ} (S : Type ℓ) (W : Type κ) ⦃r : StreamReceiver S W⦄
    : Type (ℓ ⊔ κ) where
  pub connect_opens :
      (s : S) (w : W)
      → r.is_open s ≡ false
      → (((r.connect s w).0 ≡ pos 0) × (r.is_open (r.connect s w).1 ≡ true))
        ⊎ (((r.connect s w).0 ≡ negsuc 0) × (r.is_open (r.connect s w).1 ≡ false))
  pub receive_counts :
      (s : S) (w : W) (size : ℕ) → size < 2 ^ 31 → Promised size (r.receive s w size)
  pub close_closes : (s : S) → r.is_open (r.close s) ≡ false
  pub receive_closed :
      (s : S) (w : W) (size : ℕ)
      → (rest : W) × (r.receive (r.close s) w size ≡ result (negsuc 0) [] (r.close s) rest)
