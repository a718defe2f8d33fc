-- ===== src/Transport/Tcp/Stream.antt =====
-- A stream of messages comes out message by message, however the connection cuts it into pieces.
use afi920_ros2_driver.Base.{
  lt→ltb, le→ltb, le→leb, lt→leb, ℤ, pos, negsuc, length, get_or, All, length-append, ℕ, zero, suc,
  ◌+◌, ◌-◌, ◌^◌, ◌≤◌, ◌<◌, ◌≡◌, refl, ap, ◌∙◌, true, false, Option, none, some, List, [], ◌∷◌, ◌++◌,
  map, arith,
}
use afi920_ros2_driver.Wire.RoundTrip.{join_be32_bytes}
use afi920_ros2_driver.Wire.{pack_be32, join_be32}
use mathlib.Core.List.{append-nil, append_assoc}
use afi920_ros2_driver.Transport.Tcp.{
  TcpStreamClient, Dial, Recv, got, closed, interrupted, failed, complete, recv_exact, int_of,
  returned, blocked, receive_rest, receive_header, receive, join_be32, Received,
}

-- From the answers `a` on, the bytes `xs` arrive in pieces of at least one byte, with interrupts in
-- between, and the answers `r` are left.
pub data Cut (r : List Recv) : List Recv → List ℕ → Type 0 where
  done : Cut r r []
  piece :
      {a : List Recv} {ys : List ℕ} (x : ℕ) (xs : List ℕ)
      → Cut r a ys
      → Cut r (got (x ∷ xs) ∷ a) (x ∷ (xs ++ ys))
  again :
      {a : List Recv} {y : ℕ} {ys : List ℕ} → Cut r a (y ∷ ys) → Cut r (interrupted ∷ a) (y ∷ ys)

stop :
    (n : ℕ) (received : List ℕ) (answers : List Recv)
    → n ≤ length received
    → recv_exact n received answers ≡ complete received answers
unfolding recv_exact
stop n received [] h = rw (le→leb n (length received) h)
stop n received (got xs ∷ answers) h = rw (le→leb n (length received) h)
stop n received (interrupted ∷ answers) h = rw (le→leb n (length received) h)
stop n received (closed ∷ answers) h = rw (le→leb n (length received) h)
stop n received (failed ∷ answers) h = rw (le→leb n (length received) h)

-- Pieces that add up to what is missing are put together.
recv_exact-Cut :
    (r : List Recv) (n : ℕ) (received : List ℕ) (a : List Recv) (xs : List ℕ)
    → Cut r a xs
    → length received + length xs ≡ n
    → recv_exact n received a ≡ complete (received ++ xs) r
unfolding recv_exact
recv_exact-Cut r n received a xs done e = rw (append-nil received) (stop n received r (omega arith))
recv_exact-Cut r n received a xs (piece {a = b} {ys = ys} x zs c) e =
    rw
      (
        lt→leb n (length received) (omega arith),
        le→ltb (n - length received) (length (x ∷ zs)) (omega (arith, length-append zs ys)),
      )
      (recv_exact-Cut r n (received ++ x ∷ zs) b ys c
          (omega (arith, length-append received (x ∷ zs), length-append zs ys))
        ∙ ap (λ (l : List ℕ). complete l r) (append_assoc received (x ∷ zs) ys))
recv_exact-Cut r n received a xs (again {a = b} {y = y} {ys = ys} c) e =
    rw (lt→leb n (length received) (omega arith)) (recv_exact-Cut r n received b (y ∷ ys) c e)

-- A message as it stands in the stream: four bytes of identifier, the length of the rest, the rest.
pub record Message : Type 0 where
  pub id : ℕ
  pub body : List ℕ

abbrev pub head_of : Message → List ℕ
head_of m = pack_be32 m.id ++ pack_be32 (length m.body)

abbrev pub bytes_of : Message → List ℕ
bytes_of m = head_of m ++ m.body

-- It fits in the caller's buffer.
abbrev pub FitsIn : ℕ → Message → Type 0
FitsIn buf_size m = 8 + length m.body ≤ buf_size

-- The messages arrive one after the other, each head and each rest cut into pieces of its own.
pub data Arrives (r : List Recv) : List Recv → List Message → Type 0 where
  none_left : Arrives r r []
  next_one :
      {a b c : List Recv} {ms : List Message} (m : Message)
      → Cut b a (head_of m)
      → Cut c b m.body
      → Arrives r c ms
      → Arrives r a (m ∷ ms)

read_length :
    (m : Message)
    → length m.body < 2 ^ 32
    → join_be32
        (get_or (head_of m) 4 0)
        (get_or (head_of m) 5 0)
        (get_or (head_of m) 6 0)
        (get_or (head_of m) 7 0)
      ≡ length m.body
unfolding pack_be32
read_length m h = join_be32_bytes (length m.body) h

head_size : (m : Message) → length (head_of m) ≡ 8
unfolding pack_be32
head_size m = refl

pub int_of-pos : (n : ℕ) → n < 2 ^ 31 → int_of n ≡ pos n
unfolding int_of
int_of-pos n h = ground arith

-- `Receive` so many times, until it waits: what it returned and wrote each time, and the client.
abbrev pub Log : Type 0
Log = Option (List (ℤ × List ℕ) × TcpStreamClient × List Recv)

abbrev pub add_to : ℤ × List ℕ → Log → Log
add_to entry none = none
add_to entry (some (entries, c, answers)) = some (entry ∷ entries, c, answers)

abbrev pub after : Received → (TcpStreamClient → List Recv → Log) → Log
after (returned rc xs c gone answers) k = add_to (rc, xs) (k c answers)
after blocked k = none

abbrev pub receive_times : ℕ → Dial → ℕ → TcpStreamClient → List Recv → Log
receive_times zero d buf_size c a = some ([], c, a)
receive_times (suc n) d buf_size c a = after (receive c d a buf_size) (receive_times n d buf_size)

-- What is returned and written for a message.
abbrev pub entry_of : Message → ℤ × List ℕ
entry_of m = (pos (8 + length m.body), bytes_of m)

module _ (c : TcpStreamClient) (d : Dial) (buf_size : ℕ) (opened : c.opened ≡ true)
    (small : buf_size < 2 ^ 31) where
  pub receive_one :
      (r b a : List Recv) (m : Message)
      → FitsIn buf_size m
      → Cut b a (head_of m)
      → Cut r b m.body
      → receive c d a buf_size ≡ returned (pos (8 + length m.body)) (bytes_of m) c [] r
  unfolding receive receive_header receive_rest
  receive_one r b a m f head body = rw (
    opened,
    recv_exact-Cut b 8 [] a (head_of m) head (omega (arith, head_size m)),
    read_length m (omega arith),
    le→ltb buf_size (8 + length m.body) f,
    recv_exact-Cut r (length m.body) [] b m.body body (omega arith),
    int_of-pos (8 + length m.body) (omega arith),
  )

  -- On an open connection, messages that fit in the buffer arrive one after the other, each head and
  -- each rest cut into any pieces of at least one byte, with interrupts in between. Then `Receive`,
  -- called as often as there are messages, returns their sizes and writes exactly the messages, in
  -- order, and the connection stays open.
  pub receive_times-messages :
      (r a : List Recv) (ms : List Message)
      → Arrives r a ms
      → All (FitsIn buf_size) ms
      → receive_times (length ms) d buf_size c a ≡ some (map entry_of ms, c, r)
  receive_times-messages r a ms none_left f = refl
  receive_times-messages r a ms (next_one {a = a1} {b = b} {c = c1} {ms = rest} m head body more)
        f =
      rw (receive_one c1 b a1 m f.0 head body, receive_times-messages r c1 rest more f.1)

  -- On an open connection a message that does not fit in the buffer makes `Receive` return -1 with
  -- nothing written. The connection is marked as broken, and the rest of the message is left unread.
  pub receive_oversized :
      (r a : List Recv) (m : Message)
      → length m.body < 2 ^ 32
      → buf_size < 8 + length m.body
      → Cut r a (head_of m)
      → receive c d a buf_size ≡ returned (negsuc 0) [] (record c { opened = false }) [] r
  unfolding receive receive_header
  receive_oversized r a m h over head = rw (
    opened,
    recv_exact-Cut r 8 [] a (head_of m) head (omega (arith, head_size m)),
    read_length m h,
    lt→ltb buf_size (8 + length m.body) over,
  )
