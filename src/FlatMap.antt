-- ===== src/FlatMap.antt =====
-- boost::unordered_flat_map<OrderId, V>, as include/price_level_v2.h and include/orderbook.h use it:
-- a parameter of the model, by what its documentation says of `find`, `m[k] = v`, `erase` at a found
-- key, `size` and `empty`. Its order is never read.
pub mod Holds
pub mod Listed
use cpp_orderbook.Prelude.{ℕ, suc, ◌≡◌, ◌≢◌, Bool, Option, none, some, ◌==◌}
use cpp_orderbook.Core.{OrderId}

pub record FlatMaps : Type 1 where
  pub Map : Type 0 → Type 0
  pub new_map : {V : Type 0} → Map V
  pub find_in : {V : Type 0} → OrderId → Map V → Option V
  pub assign_in : {V : Type 0} → OrderId → V → Map V → Map V
  pub erase_in : {V : Type 0} → OrderId → Map V → Map V
  pub size_of : {V : Type 0} → Map V → ℕ
  pub empty_of : {V : Type 0} → Map V → Bool
  pub find_new : {V : Type 0} (k : OrderId) → find_in {V = V} k new_map ≡ none
  pub find_assign_self :
      {V : Type 0} (k : OrderId) (v : V) (m : Map V) → find_in k (assign_in k v m) ≡ some v
  pub find_assign_ne :
      {V : Type 0} (k j : OrderId) (v : V) (m : Map V)
      → k ≢ j
      → find_in j (assign_in k v m) ≡ find_in j m
  pub find_erase_self : {V : Type 0} (k : OrderId) (m : Map V) → find_in k (erase_in k m) ≡ none
  pub find_erase_ne :
      {V : Type 0} (k j : OrderId) (m : Map V) → k ≢ j → find_in j (erase_in k m) ≡ find_in j m
  pub size_new : {V : Type 0} → size_of {V = V} new_map ≡ 0
  pub size_assign_new :
      {V : Type 0} (k : OrderId) (v : V) (m : Map V)
      → find_in k m ≡ none
      → size_of (assign_in k v m) ≡ suc (size_of m)
  pub size_assign_old :
      {V : Type 0} (k : OrderId) (v w : V) (m : Map V)
      → find_in k m ≡ some w
      → size_of (assign_in k v m) ≡ size_of m
  pub size_erase :
      {V : Type 0} (k : OrderId) (v : V) (m : Map V)
      → find_in k m ≡ some v
      → size_of m ≡ suc (size_of (erase_in k m))
  pub empty_lem : {V : Type 0} (m : Map V) → empty_of m ≡ (size_of m == 0)

-- The operations of the map at hand, under the names that the code gives them.
module _ ⦃F : FlatMaps⦄ where
  abbrev pub FlatMap : Type 0 → Type 0
  FlatMap = F.Map

  module _ {V : Type 0} where
    abbrev pub new : FlatMap V
    new = F.new_map

    abbrev pub find : OrderId → FlatMap V → Option V
    find = F.find_in

    abbrev pub assign : OrderId → V → FlatMap V → FlatMap V
    assign = F.assign_in

    abbrev pub erase : OrderId → FlatMap V → FlatMap V
    erase = F.erase_in

    abbrev pub size : FlatMap V → ℕ
    size = F.size_of

    abbrev pub is_empty : FlatMap V → Bool
    is_empty = F.empty_of
