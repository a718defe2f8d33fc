-- ===== src/Config/Pieces.antt =====
-- `recv_exact` and `send_all` of src/config_client.cpp where the bytes go in pieces.
use afi920_ros2_driver.Base.{
  ◌==◌, le→ltb, le→leb, lt→leb, length, length-append, ℕ, suc, ◌+◌, ◌-◌, ◌≤◌, min, ◌≡◌, refl, ap,
  ◌∙◌, true, false, List, [], ◌∷◌, ◌++◌, append-nil, append_assoc, arith,
}
use afi920_ros2_driver.Config.{recv_exact, send_all, Sent, took}
use afi920_ros2_driver.Transport.Tcp.{Recv, got, closed, interrupted, failed}

-- The bytes `xs` come in pieces of at least one byte, and the answers `r` are left.
pub data Pieces (r : List Recv) : List Recv → List ℕ → Type 0 where
  all_there : Pieces r r []
  one_piece :
      {a : List Recv} {ys : List ℕ} (x : ℕ) (xs : List ℕ)
      → Pieces r a ys
      → Pieces r (got (x ∷ xs) ∷ a) (x ∷ (xs ++ ys))

pub stop :
    (n : ℕ) (received : List ℕ) (answers : List Recv)
    → n ≤ length received
    → recv_exact n received answers ≡ (true, received, answers)
unfolding recv_exact
stop n received [] h = rw (le→leb n (length received) h) refl
stop n received (got xs ∷ answers) h = rw (le→leb n (length received) h) refl
stop n received (interrupted ∷ answers) h = rw (le→leb n (length received) h) refl
stop n received (closed ∷ answers) h = rw (le→leb n (length received) h) refl
stop n received (failed ∷ answers) h = rw (le→leb n (length received) h) refl

positive : (k : ℕ) → (suc k == 0) ≡ false
positive k = ground arith

pub recv_exact-Pieces :
    (r : List Recv) (n : ℕ) (received : List ℕ) (a : List Recv) (xs : List ℕ)
    → Pieces r a xs
    → length received + length xs ≡ n
    → recv_exact n received a ≡ (true, received ++ xs, r)
unfolding recv_exact
recv_exact-Pieces r n received a xs all_there e =
    rw (append-nil received) (stop n received r (omega arith))
recv_exact-Pieces r n received a xs (one_piece {a = b} {ys = ys} x zs c) e =
    rw
      (
        lt→leb n (length received) (omega arith),
        positive (length zs),
        le→ltb (n - length received) (length (x ∷ zs)) (omega (arith, length-append zs ys)),
      )
      (recv_exact-Pieces r n (received ++ x ∷ zs) b ys c
          (omega (arith, length-append received (x ∷ zs), length-append zs ys))
        ∙ ap (λ (l : List ℕ). (true, l, r)) (append_assoc received (x ∷ zs) ys))

-- The system takes so many bytes at a time.
abbrev pub taken : List ℕ → List Sent
taken [] = []
taken (k ∷ ks) = took (suc k) ∷ taken ks

abbrev pub sum : List ℕ → ℕ
sum [] = 0
sum (k ∷ ks) = suc k + sum ks

pub send_all-taken :
    (n sent : ℕ) (ks : List ℕ) → sent + sum ks ≡ n → send_all n sent (taken ks) ≡ (true, n)
unfolding send_all
send_all-taken n sent [] e =
    rw (le→leb n sent (omega arith)) (ap (λ (k : ℕ). (true, k)) (omega arith))
send_all-taken n sent (k ∷ ks) e =
    let m : min (suc k) (n - sent) ≡ suc k = omega arith in
    rw (lt→leb n sent (omega arith), positive k, m)
      (send_all-taken n (sent + suc k) ks (omega arith))
