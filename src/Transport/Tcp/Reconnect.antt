-- ===== src/Transport/Tcp/Reconnect.antt =====
-- The delay between attempts to connect, and the descriptors.
use afi920_ros2_driver.Base.{
  if◌then◌else◌, Bool-cases, ℤ, pos, negsuc, is_negative, length, All, ℕ, zero, suc, ◌*◌, ◌^◌, ◌≤◌,
  min, ◌≡◌, refl, sym, ap, ◌∙◌, ◌≢◌, ◌⊎◌, inl, inr, Bool, true, false, not, ◌||◌, List, [], ◌∷◌,
  ◌++◌, arith,
}
use native.Mathlib.Decide.{dec_le}
use afi920_ros2_driver.Transport.Tcp.{
  TcpStreamClient, Dial, min_reconnect_delay, max_reconnect_delay, close_valid, connect,
  reconnected, try_reconnect,
}

-- A connection can be made.
abbrev pub reachable : Dial → Bool
reachable d =
    if is_negative d.socket
    then false
    else not (not d.address_parsed || not d.connect_started || not d.selected || not d.error_free)

-- An attempt of a running client. If the sensor can be reached, the client is open on the new
-- descriptor, the delay is 1 s again, and only the old descriptor was closed. If not, the client is
-- closed without a descriptor, the delay has doubled up to 30 s, and the old and the new descriptor
-- were closed, once each, as far as there were any.
pub try_reconnect-cases :
    (c : TcpStreamClient) (d : Dial)
    → c.running ≡ true
    → ((reachable d ≡ true)
        × (try_reconnect c d ≡ (
          pos 0,
          record c {
            socket_fd = d.socket;
            opened = true;
            reconnect_delay_ms = min_reconnect_delay;
          },
          close_valid c.socket_fd ++ [],
        )))
      ⊎ ((reachable d ≡ false)
          × (try_reconnect c d ≡ (
            negsuc 0,
            record c {
              socket_fd = negsuc 0;
              opened = false;
              reconnect_delay_ms = min (c.reconnect_delay_ms * 2) max_reconnect_delay;
            },
            close_valid c.socket_fd ++ close_valid d.socket,
          )))
unfolding try_reconnect connect reconnected
try_reconnect-cases c d running = elim (Bool-cases (is_negative d.socket)) [
  | inl e ↦ inr (rw e refl, rw (running, e) refl)
  | inr e ↦
      elim (Bool-cases
        (not d.address_parsed || not d.connect_started || not d.selected || not d.error_free)) [
          | inl r ↦ inr (rw (e, r) refl, rw (running, e, r) refl)
          | inr r ↦ inl (rw (e, r) refl, rw (running, e, r) refl)
        ]
]

pub try_reconnect_stopped :
    (c : TcpStreamClient) (d : Dial) → c.running ≡ false → try_reconnect c d ≡ (negsuc 0, c, [])
unfolding try_reconnect
try_reconnect_stopped c d e = simp e refl

-- Attempt after attempt.
abbrev pub reconnect_all : TcpStreamClient → List Dial → TcpStreamClient
reconnect_all c [] = c
reconnect_all c (d ∷ ds) = reconnect_all (try_reconnect c d).1 ds

abbrev pub IsUnreachable : Dial → Type 0
IsUnreachable d = reachable d ≡ false

failed_attempt :
    (c : TcpStreamClient) (d : Dial)
    → c.running ≡ true
    → IsUnreachable d
    → (try_reconnect c d).1 ≡ record c {
      socket_fd = negsuc 0;
      opened = false;
      reconnect_delay_ms = min (c.reconnect_delay_ms * 2) max_reconnect_delay;
    }
failed_attempt c d running u = elim (try_reconnect-cases c d running) [
  | inl (r, e) ↦ absurd (true-ne (sym r ∙ u))
  | inr (r, e) ↦ ap (λ (x : ℤ × TcpStreamClient × List ℤ). x.1) e
]
  where
    true-ne : true ≢ false
    true-ne = λ e. cc

doubled_again :
    (delay p : ℕ)
    → 1 ≤ p
    → min (min (delay * 2) max_reconnect_delay * p) max_reconnect_delay
      ≡ min (delay * (2 * p)) max_reconnect_delay
doubled_again delay p h = elim (dec_le (delay * 2) max_reconnect_delay) [
  | yes l ↦
      let e : min (delay * 2) max_reconnect_delay ≡ delay * 2 = omega arith in
      let a : delay * 2 * p ≡ delay * (2 * p) = grind arith in rw (e, a) refl
  | no l ↦ grind arith
]

one_le_pow : (k : ℕ) → 1 ≤ 2 ^ k
one_le_pow zero = omega arith
one_le_pow (suc k) = omega (arith, one_le_pow k)

-- After `k` failed attempts in a row, the delay of a running client is its delay before them times
-- 2^k, up to 30 s.
pub reconnect_all_delay :
    (ds : List Dial) (c : TcpStreamClient)
    → c.running ≡ true
    → c.reconnect_delay_ms ≤ max_reconnect_delay
    → All IsUnreachable ds
    → (reconnect_all c ds).reconnect_delay_ms
      ≡ min (c.reconnect_delay_ms * 2 ^ length ds) max_reconnect_delay
reconnect_all_delay [] c running h u = omega arith
reconnect_all_delay (d ∷ ds) c running h u =
    ap (λ (x : TcpStreamClient). (reconnect_all x ds).reconnect_delay_ms)
      (failed_attempt c d running u.0)
    ∙ reconnect_all_delay ds
        (record c {
          socket_fd = negsuc 0;
          opened = false;
          reconnect_delay_ms = min (c.reconnect_delay_ms * 2) max_reconnect_delay;
        })
        running (omega arith) u.1
    ∙ doubled_again c.reconnect_delay_ms (2 ^ length ds) (one_le_pow (length ds))
    ∙ (let e : 2 * 2 ^ length ds ≡ 2 ^ suc (length ds) = omega arith in
        ap (λ (k : ℕ). min (c.reconnect_delay_ms * k) max_reconnect_delay) e)
