-- ===== src/Wake/Examples.antt =====
-- Two subscribers, a wake, and a drop.
use mnesis.Base.{ℕ, ◌≡◌, refl, true, List, [], ◌∷◌, arith}
use mnesis.Base.Bytes.{bytes_eq}
use mnesis.Base.Maps.{get, insert, remove}
use mnesis.Wake.{
  StreamNotifiers, new, register_entry, wake, release, of_stream, generation_of, is_resolved,
  active_streams,
}
use mnesis.Wake.Guards
use mnesis.Wake.Guards.{Reach, IsCounted, Reach-IsCounted}
use mnesis.Wake.Generations
use mnesis.Wake.Generations.{Waits, is_resolved_exact}

abbrev orders : List ℕ
orders = 111 ∷ []

abbrev carts : List ℕ
carts = 99 ∷ []

abbrev one : StreamNotifiers
one = (register_entry orders new).0

abbrev two : StreamNotifiers
two = (register_entry carts one).0

-- The order's subscriber is armed; a cart is woken, then the order.
abbrev awake : StreamNotifiers
awake = wake orders (wake carts two)

abbrev fewer : StreamNotifiers
fewer = release carts awake

armed_run : Reach two (carts ∷ orders ∷ [])
unfolding register_entry get insert bytes_eq
armed_run = Guards.registers (Guards.registers Guards.starts orders refl) carts refl

waiting : Waits (of_stream orders) two fewer (orders ∷ []) 1
unfolding bytes_eq
waiting =
    Generations.drops [] (orders ∷ []) carts
      (Generations.wakes (Generations.wakes (Generations.arms armed_run (omega arith)) carts)
        orders)
      (omega arith)

one_left : active_streams fewer ≡ 1
unfolding register_entry get insert remove bytes_eq wake release
one_left = refl

Reach-IsCounted_example : IsCounted fewer (orders ∷ [])
Reach-IsCounted_example =
    Reach-IsCounted
      (Guards.drops [] (orders ∷ []) carts (Guards.wakes (Guards.wakes armed_run carts) orders))

is_resolved_exact_example :
    is_resolved (of_stream orders) (generation_of (of_stream orders) two) fewer ≡ true
is_resolved_exact_example = is_resolved_exact (of_stream orders) waiting (omega arith)
