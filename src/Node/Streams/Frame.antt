-- ===== src/Node/Streams/Frame.antt =====
-- What a handler does to a node depends on the other streams' members only by leaving them alone.
pub mod Rdi
pub mod Shi
pub mod Spi
use afi920_ros2_driver.Base.{
  if◌then◌else◌, Access, ok, fault, ◌>>=◌, ◌≡◌, ap, ◌∙◌, Bool, true, false, List,
}
use afi920_ros2_driver.Node.Types.{Node, Event}

-- The node of a result, rebuilt.
abbrev pub Rebuild : Type 0
Rebuild = Node → Node

abbrev pub rebuilt : Rebuild → Node × List Event → Node × List Event
rebuilt f r = (f r.0, r.1)

abbrev pub rebuild : Rebuild → Node × List Event → Access (Node × List Event)
rebuild f r = ok (rebuilt f r)

module _ (f : Rebuild) where
  pub if_rebuilt :
      (b : Bool) {x1 y1 x y : Node × List Event}
      → x1 ≡ rebuilt f x
      → y1 ≡ rebuilt f y
      → (if b then x1 else y1) ≡ rebuilt f (if b then x else y)
  if_rebuilt true e d = e
  if_rebuilt false e d = d

  pub if_rebuild :
      (b : Bool) (x y : Access (Node × List Event)) {x1 y1 : Access (Node × List Event)}
      → x1 ≡ (x >>= rebuild f)
      → y1 ≡ (y >>= rebuild f)
      → (if b then x1 else y1) ≡ ((if b then x else y) >>= rebuild f)
  if_rebuild true x y e d = e
  if_rebuild false x y e d = d

  -- A step after one that is known to rebuild.
  pub then_rebuild :
      {x1 : Access (Node × List Event)} (x : Access (Node × List Event))
      (g : Node × List Event → Access (Node × List Event))
      → x1 ≡ (x >>= rebuild f)
      → ((r : Node × List Event) → g (rebuilt f r) ≡ (g r >>= rebuild f))
      → (x1 >>= g) ≡ ((x >>= g) >>= rebuild f)
  then_rebuild (ok r) g e d = ap (λ x. x >>= g) e ∙ d r
  then_rebuild fault g e d = ap (λ x. x >>= g) e
