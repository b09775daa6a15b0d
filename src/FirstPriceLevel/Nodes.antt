-- ===== src/FirstPriceLevel/Nodes.antt =====
-- The list of include/price_level.h, and the iterators into it.
use cpp_orderbook.Prelude.{
  ℕ, suc, ◌≤◌, ◌≡◌, ◌≢◌, refl, sym, ap, ◌∙◌, subst, ◌⊎◌, inl, inr, List, [], ◌∷◌, ◌++◌, All,
  All-imp, Bool-cases, ◌==◌, true, false, some, ok, arith,
}
use cpp_orderbook.Core.{OrderId}
use cpp_orderbook.OrderPool.{OrderPtr}
use cpp_orderbook.FlatMap
use cpp_orderbook.FlatMap.{FlatMaps, FlatMap}
use cpp_orderbook.PriceLevel.Index.{without}
use cpp_orderbook.FirstPriceLevel.{Node, erase_node}

-- The orders of the nodes.
abbrev pub orders_of : List Node → List OrderPtr
orders_of [] = []
orders_of (n ∷ ns) = n.order ∷ orders_of ns

-- The numbers rise, from `k` on, and stay below `m`.
abbrev pub IsRising : ℕ → ℕ → List Node → Type 0
IsRising k m [] = k ≤ m
IsRising k m (n ∷ ns) = (k ≤ n.number) × IsRising (suc n.number) m ns

pub IsRising-below : (j k m : ℕ) (ns : List Node) → j ≤ k → IsRising k m ns → IsRising j m ns
IsRising-below j k m [] h r = omega arith
IsRising-below j k m (n ∷ ns) h r = (omega (arith, r.0), r.1)

pub IsRising-All : (k m : ℕ) (ns : List Node) → IsRising k m ns → All (λ n. k ≤ n.number) ns
IsRising-All k m [] r = tt
IsRising-All k m (n ∷ ns) r =
    (r.0, All-imp ns (λ x h. omega (arith, r.0)) (IsRising-All (suc n.number) m ns r.1))

pub IsRising-append :
    (k m : ℕ) (ns : List Node) (ptr : OrderPtr)
    → IsRising k m ns
    → IsRising k (suc m) (ns ++ record { number = m; order = ptr } ∷ [])
IsRising-append k m [] ptr r = (r, omega arith)
IsRising-append k m (n ∷ ns) ptr r = (r.0, IsRising-append (suc n.number) m ns ptr r.1)

pub orders_of-append :
    (ns : List Node) (n : Node) → orders_of (ns ++ n ∷ []) ≡ orders_of ns ++ n.order ∷ []
orders_of-append [] n = refl
orders_of-append (x ∷ ns) n = ap (λ l. x.order ∷ l) (orders_of-append ns n)

module _ (id_of : OrderPtr → OrderId) where
  -- An order of this id is in the queue.
  abbrev pub HasId : OrderId → List OrderPtr → Type 0
  HasId id [] = ⊥
  HasId id (p ∷ ps) = (id_of p ≡ id) ⊎ HasId id ps

module _ ⦃F : FlatMaps⦄ (id_of : OrderPtr → OrderId) where
  -- The map has each order of the list at its node.
  abbrev pub IsMapped : FlatMap ℕ → List Node → Type 0
  IsMapped m ns = All (λ n. FlatMap.find (id_of n.order) m ≡ some n.number) ns

  pub record Erased (id : OrderId) (it k m : ℕ) (om : FlatMap ℕ) (ns : List Node) : Type 0 where
    pub left : List Node
    pub runs : erase_node it ns ≡ ok left
    pub taken : orders_of left ≡ without id_of id (orders_of ns)
    pub rising : IsRising k m left
    pub mapped : IsMapped (FlatMap.erase id om) left

  still_mapped :
      (id : OrderId) (om : FlatMap ℕ) (n : Node)
      → FlatMap.find (id_of n.order) om ≡ some n.number
      → id_of n.order ≢ id
      → FlatMap.find (id_of n.order) (FlatMap.erase id om) ≡ some n.number
  still_mapped id om n h ne = F.find_erase_ne id (id_of n.order) om (λ e. ne (sym e)) ∙ h

  -- The node of an id that is in the list stands among its nodes.
  node_of_id :
      (id : OrderId) (it k m : ℕ) (om : FlatMap ℕ) (ns : List Node)
      → IsRising k m ns
      → IsMapped om ns
      → FlatMap.find id om ≡ some it
      → HasId id_of id (orders_of ns)
      → k ≤ it
  node_of_id id it k m om [] r h found has = absurd has
  node_of_id id it k m om (n ∷ ns) r h found has = elim has [
    | inl e ↦
        let at : FlatMap.find id om ≡ some n.number =
          subst (λ i. FlatMap.find i om ≡ some n.number) e h.0 in
        let same : n.number ≡ it = ground (arith, at) in omega (arith, r.0)
    | inr later ↦
        let above = node_of_id id it (suc n.number) m om ns r.1 h.1 found later in
        omega (arith, r.0)
  ]

  -- Nodes behind that of an id are nodes of other ids.
  IsMapped-behind :
      (id : OrderId) (it m : ℕ) (om : FlatMap ℕ) (ns : List Node)
      → All (λ (n : Node). suc it ≤ n.number) ns
      → IsMapped om ns
      → FlatMap.find id om ≡ some it
      → IsMapped (FlatMap.erase id om) ns
  IsMapped-behind id it m om [] above h found = tt
  IsMapped-behind id it m om (n ∷ ns) above h found = (
    still_mapped id om n h.0 (λ e.
        let at : FlatMap.find id om ≡ some n.number =
          subst (λ i. FlatMap.find i om ≡ some n.number) e h.0 in
        let same : n.number ≡ it = ground (arith, at, found) in omega (arith, above.0)),
    IsMapped-behind id it m om ns above.1 h.1 found,
  )

  -- To erase the node that the map gives for an id is to take its order out of the queue.
  pub erase_node-Erased :
      (id : OrderId) (it k m : ℕ) (om : FlatMap ℕ) (ns : List Node)
      → IsRising k m ns
      → IsMapped om ns
      → FlatMap.find id om ≡ some it
      → HasId id_of id (orders_of ns)
      → Erased id it k m om ns
  unfolding erase_node
  erase_node-Erased id it k m om [] r h found has = absurd has
  erase_node-Erased id it k m om (n ∷ ns) r h found has = elim (Bool-cases (id_of n.order == id)) [
    | inl e ↦
        let own : id_of n.order ≡ id = ground arith in
        let at : FlatMap.find id om ≡ some n.number =
          subst (λ i. FlatMap.find i om ≡ some n.number) own h.0 in
        let same : n.number ≡ it = ground (arith, at) in
        let here : (n.number == it) ≡ true = ground arith in
        record {
          left = ns;
          runs = rw here refl;
          taken = rw e refl;
          rising = IsRising-below k (suc n.number) m ns (omega (arith, r.0)) r.1;
          mapped =
              IsMapped-behind id it m om ns
                (subst (λ j. All (λ (x : Node). suc j ≤ x.number) ns) same
                  (IsRising-All (suc n.number) m ns r.1))
                h.1 found;
        }
    | inr e ↦
        let other : id_of n.order ≢ id = λ same. ground arith in
        let later : HasId id_of id (orders_of ns) = elim has [
          | inl same ↦ absurd (other same)
          | inr later ↦ later
        ] in
        let x = erase_node-Erased id it (suc n.number) m om ns r.1 h.1 found later in
        let behind = node_of_id id it (suc n.number) m om ns r.1 h.1 found later in
        let elsewhere : (n.number == it) ≡ false = ground arith in
        record {
          left = n ∷ x.left;
          runs = rw (elsewhere, x.runs) refl;
          taken = rw e (ap (λ l. n.order ∷ l) x.taken);
          rising = (r.0, x.rising);
          mapped = (still_mapped id om n h.0 other, x.mapped);
        }
  ]
