-- ===== src/OrderBook/Opening.antt =====
-- A book of include/orderbook.h when it is made.
use cpp_orderbook.Prelude.{
  ℕ, zero, suc, ◌+◌, ◌≡◌, refl, sym, ap, subst, inl, inr, List, [], ◌∷◌, ◌++◌, length,
  length-append, get_elem?, All, Bool-cases, ltb, ◌==◌, some, arith,
}
use Prim.Native.String.{String}
use cpp_orderbook.Core.{OrderId}
use cpp_orderbook.Clock.{Clock, now}
use cpp_orderbook.Order.{Order, fresh, default_order}
use cpp_orderbook.IdAllocator.{get_next_id_block}
use cpp_orderbook.OrderPool.{OrderVector, make_pool, reserve, emplace_back, emplace_defaults, peek}
use cpp_orderbook.FlatMap.{FlatMaps}
use cpp_orderbook.OrderBook.Book.{Surroundings, make_book_of}
use cpp_orderbook.OrderBook.Kept.{PoolOk}
use cpp_orderbook.OrderBook.Drawing.{HasIds}
use cpp_orderbook.OrderBook.Loop.{IsUncrossed}
use cpp_orderbook.OrderBook.Accepting.{Consistent}

-- An order that nothing was done with.
abbrev IsUnused : Order → Type 0
IsUnused o = (o.status ≡ fresh) × (o.quantity_filled ≡ 0)

All-snoc :
    (P : Order → Type 0) (os : List Order) (o : Order) → All P os → P o → All P (os ++ o ∷ [])
All-snoc P [] o h p = (p, tt)
All-snoc P (x ∷ os) o h p = (h.0, All-snoc P os o h.1 p)

All-get_elem? :
    (P : Order → Type 0) (os : List Order) (i : ℕ) {o : Order}
    → All P os
    → get_elem? os i ≡ some o
    → P o
All-get_elem? P [] i h e = absurd (cc)
All-get_elem? P (x ∷ os) zero h e = let same : x ≡ _ = cc e in subst P same h.0
All-get_elem? P (x ∷ os) (suc i) h e = All-get_elem? P os i h.1 e

elements_emplaced :
    (o : Order) (v : OrderVector) → (emplace_back o v).elements ≡ v.elements ++ o ∷ []
unfolding emplace_back
elements_emplaced o v = elim (Bool-cases (ltb (length v.elements) v.capacity)) [
  | inl fits ↦ rw fits refl
  | inr full ↦ rw full refl
]

emplace_defaults_lem :
    (n : ℕ) (v : OrderVector) (c : Clock)
    → All IsUnused v.elements
    → All IsUnused (emplace_defaults n v c).0.elements
      × (length (emplace_defaults n v c).0.elements ≡ length v.elements + n)
unfolding emplace_defaults default_order
emplace_defaults_lem zero v c h = (h, omega arith)
emplace_defaults_lem (suc n) v c h =
    let o = (default_order c).0 in
    let v' = emplace_back o v in
    let grown = elements_emplaced o v in
    let all : All IsUnused v'.elements =
      subst (All IsUnused) (sym grown) (All-snoc IsUnused v.elements o h (refl, refl)) in
    let (unused, size) = emplace_defaults_lem n v' (now c).1 all in
    (unused, omega (arith, size, ap length grown, length-append v.elements (o ∷ [])))

-- A pool just made: nothing is handed out, and it has the slots that were asked for.
make_pool_lem :
    (n : ℕ) (c : Clock) (first : OrderId)
    → PoolOk first (make_pool n c).0
      × ((make_pool n c).0.next_free_index ≡ 0)
      × (length (make_pool n c).0.orders.elements ≡ n)
unfolding make_pool peek reserve
make_pool_lem n c first =
    let empty : OrderVector = record { buffer = 0; capacity = 0; elements = [] } in
    let none_yet : (reserve n empty).elements ≡ [] = elim (Bool-cases (ltb 0 n)) [
      | inl positive ↦ rw positive refl
      | inr zero_size ↦ rw zero_size refl
    ] in
    let (unused, size) =
      emplace_defaults_lem n (reserve n empty) c (subst (All IsUnused) (sym none_yet) tt) in
    (
      record {
        free = λ q o free there. elim (Bool-cases (q.buffer == (make_pool n c).0.orders.buffer)) [
          | inl here ↦
              All-get_elem? IsUnused (make_pool n c).0.orders.elements q.index unused
                (rw here at there)
          | inr elsewhere ↦ absurd (cc (rw elsewhere at there))
        ];
        drawn = λ q used. absurd (omega arith);
      },
      refl,
      omega (arith, size, ap length none_yet),
    )

module _ ⦃F : FlatMaps⦄ where
  -- A book just made, over a pool of any size, while the allocator can give a block of ids: it is
  -- consistent and uncrossed, no slot is handed out, and the pool has that many.
  pub make_book_of-Consistent :
      (size : ℕ) (instrument : String) (space : ℕ) (w : Surroundings)
      → HasIds w
      → Consistent (make_book_of size instrument space w).0 (make_book_of size instrument space w).1
        × IsUncrossed (make_book_of size instrument space w).0
        × ((make_book_of size instrument space w).0.order_pool.next_free_index ≡ 0)
        × (length (make_book_of size instrument space w).0.order_pool.orders.elements ≡ size)
  unfolding make_book_of get_next_id_block
  make_book_of-Consistent size instrument space w h =
      let (pool_ok, unused, slots) = make_pool_lem size w.clock w.id_allocator.global_counter in
      (
        record {
          book_ok = record {
            bids_ok = record { ordered = tt; levels = tt };
            asks_ok = record { ordered = tt; levels = tt };
          };
          pool_ok = pool_ok;
          ids_ok = record {
            within = omega (arith, h.no_wrap, h.some_ids);
            below = omega (arith, h.no_wrap, h.some_ids);
          };
          registry_ok = record {
            in_use = λ id ptr found. absurd (cc (found, F.find_new id));
            entries = λ id ptr found. absurd (cc (found, F.find_new id));
          };
        },
        tt,
        unused,
        slots,
      )
