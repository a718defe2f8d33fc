-- ===== src/Base/Memory.antt =====
-- Reads of memory through a pointer. A pointer with the bytes that may be read behind it is the list
-- of those bytes; `fault` is a read past them, which C++ leaves undefined.
use Prim.Native.Nat.{ℕ, zero, suc, ◌≤◌, ◌<◌}
use mathlib.Core.Path.{◌≡◌, refl, ap, ◌∙◌}
use mathlib.Core.Logic.{◌≢◌}
use mathlib.Core.Bool.{◌||◌}
use mathlib.Core.List.{List, [], ◌∷◌, ◌++◌}
use native.Mathlib.Omega.{arith}
use afi920_ros2_driver.Base.Bools.{ltb, le→ltb, if◌then◌else◌}
use afi920_ros2_driver.Base.Lists.{
  length, get_or, take, drop, length-append, length-take, length-drop, take_all,
}

pub data Access {ℓ} (A : Type ℓ) : Type ℓ where
  ok : A → Access A
  fault : Access A

infixl 5 ◌>>=◌
abbrev pub ◌>>=◌ {ℓ κ} : {A : Type ℓ} {B : Type κ} → Access A → (A → Access B) → Access B
ok a >>= f = f a
fault >>= f = fault

-- `p[i]`
unfoldable pub byte_at : List ℕ → ℕ → Access ℕ
byte_at [] i = fault
byte_at (x ∷ p) zero = ok x
byte_at (x ∷ p) (suc i) = byte_at p i

pub byte_at-ok : (p : List ℕ) (i : ℕ) → i < length p → byte_at p i ≡ ok (get_or p i 0)
unfolding byte_at
byte_at-ok [] i h = absurd (omega arith)
byte_at-ok (x ∷ p) zero h = refl
byte_at-ok (x ∷ p) (suc i) h = byte_at-ok p i (omega arith)

pub ok-ne-fault {ℓ} : {A : Type ℓ} {m : Access A} {a : A} → m ≡ ok a → m ≢ fault
ok-ne-fault e = λ f. cc

-- `memcpy(dst, src, n)` into an array: both have at least `n` elements.
unfoldable pub memcpy : List ℕ → List ℕ → ℕ → Access (List ℕ)
memcpy dst src n =
    if ltb (length src) n || ltb (length dst) n then fault else ok (take n src ++ drop n dst)

pub memcpy-ok :
    (dst src : List ℕ) (n : ℕ)
    → n ≤ length src
    → n ≤ length dst
    → memcpy dst src n ≡ ok (take n src ++ drop n dst)
unfolding memcpy
memcpy-ok dst src n hs hd = rw (le→ltb (length src) n hs, le→ltb (length dst) n hd)

pub length-memcpy :
    (dst src : List ℕ) (n : ℕ)
    → n ≤ length src
    → n ≤ length dst
    → length (take n src ++ drop n dst) ≡ length dst
length-memcpy dst src n hs hd =
    omega (arith, length-append (take n src) (drop n dst), length-take n src, length-drop n dst)

-- All of a list, to the front.
pub memcpy_whole :
    (dst src : List ℕ)
    → length src ≤ length dst
    → memcpy dst src (length src) ≡ ok (src ++ drop (length src) dst)
memcpy_whole dst src h =
    memcpy-ok dst src (length src) (omega arith) h
    ∙ ap (λ (l : List ℕ). ok (l ++ drop (length src) dst)) (take_all (length src) src refl)

-- A result without a fault that satisfies `P`.
abbrev pub Safe {ℓ} : {A : Type ℓ} → (A → Type 0) → Access A → Type 0
Safe P (ok a) = P a
Safe P fault = ⊥

pub Safe-ne-fault {ℓ} : {A : Type ℓ} (P : A → Type 0) (m : Access A) → Safe P m → m ≢ fault
Safe-ne-fault P (ok a) h = λ e. cc
Safe-ne-fault P fault h = absurd h

pub Safe-bind {ℓ κ} :
    {A : Type ℓ} {B : Type κ} (P : A → Type 0) (Q : B → Type 0) (m : Access A) (f : A → Access B)
    → Safe P m
    → ((a : A) → P a → Safe Q (f a))
    → Safe Q (m >>= f)
Safe-bind P Q (ok a) f s k = k a s
Safe-bind P Q fault f s k = s

-- A step moved out of what follows it, or across the steps before it.
pub bind_after {ℓ κ μ} :
    {A : Type ℓ} {B : Type κ} {C : Type μ} (o : Access A) (f : A → Access C) (g : A → Access B)
    → (h : B → Access C) → ((a : A) → f a ≡ (g a >>= h))
    → (o >>= f) ≡ ((o >>= g) >>= h)
bind_after (ok a) f g h e = e a
bind_after fault f g h e = refl

pub pull_one {ℓ κ μ ν} :
    {A : Type ℓ} {B : Type κ} {C : Type μ} {D : Type ν} (o : Access A) (q : Access B)
    → (f : B → Access C) (k : A → C → Access D)
    → (o >>= λ a. (q >>= f) >>= k a) ≡ (q >>= λ b. o >>= λ a. f b >>= k a)
pull_one (ok a) (ok b) f k = refl
pull_one (ok a) fault f k = refl
pull_one fault (ok b) f k = refl
pull_one fault fault f k = refl

pub pull_two {ℓ κ μ ν ξ} :
    {A : Type ℓ} {B : Type κ} {C : Type μ} {D : Type ν} {E : Type ξ} (o : Access A) (o1 : Access E)
    → (q : Access B) (f : B → Access C) (k : A → E → C → Access D)
    → (o >>= λ a. o1 >>= λ e. (q >>= f) >>= k a e)
      ≡ (q >>= λ b. o >>= λ a. o1 >>= λ e. f b >>= k a e)
pull_two (ok a) o1 q f k = pull_one o1 q f (k a)
pull_two fault o1 (ok b) f k = refl
pull_two fault o1 fault f k = refl
