-- ===== src/Node/Streams/Interleaved.antt =====
-- The datagrams of the three streams in any order.
use afi920_ros2_driver.Base.{
  Access, ok, fault, ◌>>=◌, ℕ, ◌≡◌, refl, sym, ap, ◌∙◌, List, [], ◌∷◌, ◌++◌, bind_after, pull_one,
  pull_two,
}
use afi920_ros2_driver.Node.Streams.Frame.Spi.{process_spi_datagram_frame}
use afi920_ros2_driver.Node.Streams.Frame.Shi.{process_shi_datagram_frame}
use afi920_ros2_driver.Node.Streams.Frame.Rdi.{process_rdi_datagram_frame}
use afi920_ros2_driver.Node.Spi.{process_spi_datagram}
use afi920_ros2_driver.Node.Shi.{process_shi_datagram}
use afi920_ros2_driver.Node.Rdi.{process_rdi_datagram}
use afi920_ros2_driver.Node.Streams.Frame.{Rebuild, rebuild, rebuilt}
use afi920_ros2_driver.Node.Types.{Node, Clock, Event}
use afi920_ros2_driver.Node.Streams.{
  rdi_from, shi_from, spi_from, Arrival, rdi, shi, spi, Event, process_arrivals, process_arrival,
  process_all, Published, process_rdi_datagram, process_shi_datagram, process_spi_datagram,
}

-- The datagrams of the three streams, and an order in which they come.
pub data Interleaving
    : List (Clock × List ℕ)
      → List (Clock × List ℕ)
      → List (Clock × List ℕ)
      → List Arrival
      → Type 0 where
  none_comes : Interleaving [] [] [] []
  rdi_comes :
      {d : Clock × List ℕ} {rs ss ps : List (Clock × List ℕ)} {arrivals : List Arrival}
      → Interleaving rs ss ps arrivals
      → Interleaving (d ∷ rs) ss ps (rdi d ∷ arrivals)
  shi_comes :
      {d : Clock × List ℕ} {rs ss ps : List (Clock × List ℕ)} {arrivals : List Arrival}
      → Interleaving rs ss ps arrivals
      → Interleaving rs (d ∷ ss) ps (shi d ∷ arrivals)
  spi_comes :
      {d : Clock × List ℕ} {rs ss ps : List (Clock × List ℕ)} {arrivals : List Arrival}
      → Interleaving rs ss ps arrivals
      → Interleaving rs ss (d ∷ ps) (spi d ∷ arrivals)

-- The members of each stream from a node of its own.
abbrev pub joined : Node → Node → Node → Node → Node
joined x y z n = rdi_from x (shi_from y (spi_from z n))

-- A round of the loop over the arrivals, where the handler only depends on what it rebuilds.
one_round :
    {A B : Type 0} (o : Access (Node × List Event)) {p q : Access (Node × List Event)}
    → (f g : Rebuild) (h : Node × List Event → Access A) (next : A → Access B)
    → (alone : Node × List Event → Access B) → p ≡ (o >>= rebuild f)
    → q ≡ (o >>= rebuild g)
    → ((r : Node × List Event) → (h (rebuilt f r) >>= next) ≡ alone (rebuilt g r))
    → ((p >>= h) >>= next) ≡ (q >>= alone)
one_round (ok r) f g h next alone e d k =
    ap (λ x. (x >>= h) >>= next) e ∙ k r ∙ sym (ap (λ x. x >>= alone) d)
one_round fault f g h next alone e d k =
    ap (λ x. (x >>= h) >>= next) e ∙ sym (ap (λ x. x >>= alone) d)

module _ (n : Node) where
  abbrev rdi_alone : Node → List Event → List (Clock × List ℕ) → Access (Node × List Event)
  rdi_alone x events rs = process_all process_rdi_datagram (rdi_from x n) events rs

  abbrev shi_alone : Node → List Event → List (Clock × List ℕ) → Access (Node × List Event)
  shi_alone y events ss = process_all process_shi_datagram (shi_from y n) events ss

  abbrev spi_alone : Node → List Event → List (Clock × List ℕ) → Access (Node × List Event)
  spi_alone z events ps = process_all process_spi_datagram (spi_from z n) events ps

  abbrev together :
      Node × List Event → Node × List Event → Node × List Event → Access (Node × Published)
  together a b c = ok (joined a.0 b.0 c.0 n, record { by_rdi = a.1; by_shi = b.1; by_spi = c.1 })

  interleaved_from :
      (x y z : Node) (out : Published) {rs ss ps : List (Clock × List ℕ)} {arrivals : List Arrival}
      → Interleaving rs ss ps arrivals
      → process_arrivals (joined x y z n) out arrivals ≡ (
          rdi_alone x out.by_rdi rs >>= λ a.
          shi_alone y out.by_shi ss >>= λ b. spi_alone z out.by_spi ps >>= together a b)
  unfolding process_arrivals process_arrival process_all
  interleaved_from x y z out none_comes = refl
  interleaved_from x y z out (rdi_comes {d = (clock, datagram)} more) =
      one_round (process_rdi_datagram (rdi_from x n) clock datagram) _ (λ m. rdi_from m n) _ _ _
        (process_rdi_datagram_frame n y z x clock datagram)
        (process_rdi_datagram_frame n n n x clock datagram) (λ r. interleaved_from r.0 y z _ more)
      ∙ bind_after (process_rdi_datagram (rdi_from x n) clock datagram) _ _ _ (λ r. refl)
  interleaved_from x y z out
        (shi_comes {d = (clock, datagram)} {rs = rs} {ss = ss} {ps = ps} more) =
      let own = process_shi_datagram (shi_from y n) clock datagram in
      let follow : Node × List Event → Access (Node × List Event) =
        λ r. process_all process_shi_datagram r.0 (out.by_shi ++ r.1) ss in
      one_round own _ (λ m. shi_from m n) _ _
        (λ r. rdi_alone x out.by_rdi rs >>= λ a.
          follow r >>= λ b. spi_alone z out.by_spi ps >>= together a b)
        (process_shi_datagram_frame n x z y clock datagram)
        (process_shi_datagram_frame n n n y clock datagram) (λ r. interleaved_from x r.0 z _ more)
      ∙ sym (
          pull_one (rdi_alone x out.by_rdi rs) own follow
            (λ a b. spi_alone z out.by_spi ps >>= together a b))
  interleaved_from x y z out
        (spi_comes {d = (clock, datagram)} {rs = rs} {ss = ss} {ps = ps} more) =
      let own = process_spi_datagram (spi_from z n) clock datagram in
      let follow : Node × List Event → Access (Node × List Event) =
        λ r. process_all process_spi_datagram r.0 (out.by_spi ++ r.1) ps in
      one_round own _ (λ m. spi_from m n) _ _
        (λ r. rdi_alone x out.by_rdi rs >>= λ a.
          shi_alone y out.by_shi ss >>= λ b. follow r >>= together a b)
        (process_spi_datagram_frame n x y z clock datagram)
        (process_spi_datagram_frame n n n z clock datagram) (λ r. interleaved_from x y r.0 _ more)
      ∙ sym (
          pull_two (rdi_alone x out.by_rdi rs) (shi_alone y out.by_shi ss) own follow
            (λ a b. together a b))

-- The three threads share one node and handle their datagrams one at a time, in any order. What each
-- publishes, and what becomes of the members that it uses, is what it would publish and leave behind
-- with the node to itself: the other two have no influence. The rest of the node does not change.
pub process_arrivals-Interleaving :
    (n : Node) {rs ss ps : List (Clock × List ℕ)} {arrivals : List Arrival}
    → Interleaving rs ss ps arrivals
    → process_arrivals n (record { by_rdi = []; by_shi = []; by_spi = [] }) arrivals ≡ (
        process_all process_rdi_datagram n [] rs >>= λ a.
        process_all process_shi_datagram n [] ss >>= λ b.
        process_all process_spi_datagram n [] ps >>= λ c.
        ok (joined a.0 b.0 c.0 n, record { by_rdi = a.1; by_shi = b.1; by_spi = c.1 }))
process_arrivals-Interleaving n v =
    interleaved_from n n n n (record { by_rdi = []; by_shi = []; by_spi = [] }) v
