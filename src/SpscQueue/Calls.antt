-- ===== src/SpscQueue/Calls.antt =====
-- `push` and `pop` of include/spsc_queue.h, uninterrupted, as sequences of the threads' steps.
use cpp_orderbook.Prelude.{
  ◌+◌, ◌%◌, inl, inr, ◌⊎◌, true, false, ok, ◌<◌, ◌≡◌, ◌≢◌, refl, sym, ap, ◌∙◌, [], ◌∷◌, ◌++◌,
  length, get_elem?, set, some, none, arith, length-set, get_elem?-lt,
}
use native.Mathlib.Decide.{dec_lt}
use native.Mathlib.Nat.{mod-lt, add-mod_right, le_refl}
use cpp_orderbook.SpscQueue.{SpscQueue, next_index, push, pop}
use cpp_orderbook.SpscQueue.Steps.{
  resting, waiting, State, push_starts, push_loads, push_writes, push_stores, pop_starts, pop_loads,
  pop_reads, pop_stores, Reach, here, then_step, position,
}
use cpp_orderbook.SpscQueue.Modulo.{eq_of_mod, next_index_lem, position_lem}
use cpp_orderbook.SpscQueue.Ring.{Inv}

module _ {A : Type 0} where
  pub push_accepts :
      (x : A) (q : SpscQueue A)
      → q.head < length q.buffer
      → next_index q.buffer q.head ≢ q.tail
      → let written = set q.buffer q.head x in
        push x q ≡ ok (true, record q { buffer = written; head = next_index written q.head })
  unfolding push
  push_accepts x q low free =
      let (old, there) = get_elem?-lt q.buffer q.head low in
      ground (arith, length-set q.buffer q.head x)

  pub push_refuses :
      (x : A) (q : SpscQueue A)
      → 0 < length q.buffer
      → next_index q.buffer q.head ≡ q.tail
      → push x q ≡ ok (false, q)
  unfolding push
  push_refuses x q some_slot full = ground arith

  pub pop_gives :
      (q : SpscQueue A) {y : A}
      → 0 < length q.buffer
      → q.tail ≢ q.head
      → get_elem? q.buffer q.tail ≡ some y
      → pop q ≡ ok (some y, record q { tail = next_index q.buffer q.tail })
  unfolding pop
  pop_gives q some_slot some_item there = ground arith

  pop_refuses : (q : SpscQueue A) → q.tail ≡ q.head → pop q ≡ ok (none, q)
  unfolding pop
  pop_refuses q none_left = ground arith

  -- A push that another thread does not interrupt: it stores the item, and is a sequence of steps,
  -- or the queue is full and nothing changes.
  pub push_lem :
      (x : A) {s : State A}
      → Inv s
      → s.producer ≡ resting
      → ((q' : SpscQueue A) × (length s.pushed + 1 < length s.popped + length s.queue.buffer)
          × (push x s.queue ≡ ok (true, q'))
          × Reach s (record s {
            queue = q';
            producer = resting;
            pushed = s.pushed ++ x ∷ [];
            pops_seen = length s.popped;
          }))
        ⊎ ((length s.pushed + 1 ≡ length s.popped + length s.queue.buffer)
            × (push x s.queue ≡ ok (false, s.queue)))
  push_lem x {s} v e =
      let q = s.queue in
      let n = length q.buffer in
      let w = length s.pushed in
      let r = length s.popped in
      let next = ap (next_index q.buffer) v.ring.head_at ∙ next_index_lem q.buffer w v.ring.sized in
      let low : q.head < n = omega (arith, v.ring.head_at, mod-lt w v.ring.sized.some_slot) in
      elim (dec_lt (w + 1) (r + n)) [
        | yes room ↦
            let free : next_index q.buffer q.head ≢ q.tail = λ same. absurd (
              omega (
                arith,
                v.ring.behind,
                v.ring.pushes_bound,
                eq_of_mod n (w + 1) r (omega (arith, v.ring.behind, v.ring.pushes_bound)) room
                    (sym next ∙ same ∙ v.ring.tail_at),
              )) in
            let seen : next_index q.buffer q.head ≢ position q.buffer r =
              λ same. free (same ∙ position_lem q.buffer r v.ring.sized ∙ sym v.ring.tail_at) in
            inl (
              record q {
                buffer = set q.buffer q.head x;
                head = next_index (set q.buffer q.head x) q.head;
              },
              room,
              push_accepts x q low free,
              then_step
                  (then_step
                    (then_step (then_step here (push_starts x e))
                      (push_loads x q.head r refl v.ring.pops_bound (le_refl r)))
                    (push_writes x q.head (position q.buffer r) refl seen))
                  (push_stores x q.head refl),
            )
        | no full ↦
            let last : w + 1 ≡ r + n = omega (arith, v.ring.room, v.ring.pops_bound) in
            inr (
              last,
              push_refuses x q v.ring.sized.some_slot
                  (next ∙ ap (λ k. k % n) last ∙ add-mod_right r n ∙ sym v.ring.tail_at),
            )
      ]

  -- A pop that another thread does not interrupt: it gives the oldest item that has not been
  -- popped, and is a sequence of steps, or the queue is empty and nothing changes.
  pub pop_lem :
      {s : State A}
      → Inv s
      → s.consumer ≡ waiting
      → ((y : A) × (q' : SpscQueue A) × (get_elem? s.pushed (length s.popped) ≡ some y)
          × (pop s.queue ≡ ok (some y, q'))
          × Reach s (record s {
            queue = q';
            consumer = waiting;
            popped = s.popped ++ y ∷ [];
            pushes_seen = length s.pushed;
          }))
        ⊎ ((length s.pushed ≡ length s.popped) × (pop s.queue ≡ ok (none, s.queue)))
  pop_lem {s} v e =
      let q = s.queue in
      let n = length q.buffer in
      let w = length s.pushed in
      let r = length s.popped in
      elim (dec_lt r w) [
        | yes some_item ↦
            let differ : q.tail ≢ q.head = λ same. absurd (
              omega (
                arith,
                eq_of_mod n w r (omega arith) (omega (arith, v.ring.room, v.ring.pops_bound))
                    (sym v.ring.head_at ∙ sym same ∙ v.ring.tail_at),
              )) in
            let (y, oldest) = get_elem?-lt s.pushed r some_item in
            let there =
              ap (get_elem? q.buffer) v.ring.tail_at
              ∙ v.ring.slots r (le_refl r) some_item
              ∙ oldest in
            let seen : q.tail ≢ position q.buffer w =
              λ same. differ (same ∙ position_lem q.buffer w v.ring.sized ∙ sym v.ring.head_at) in
            inl (
              y,
              record q { tail = next_index q.buffer q.tail },
              oldest,
              pop_gives q v.ring.sized.some_slot differ there,
              then_step
                  (then_step
                    (then_step (then_step here (pop_starts e))
                      (pop_loads q.tail w refl v.ring.pushes_bound (le_refl w)))
                    (pop_reads q.tail (position q.buffer w) y refl seen there))
                  (pop_stores q.tail y refl),
            )
        | no none_left ↦
            let level : w ≡ r = omega (arith, v.ring.behind, v.ring.pushes_bound) in
            inr (
              level,
              pop_refuses q (v.ring.tail_at ∙ ap (λ k. k % n) (sym level) ∙ sym v.ring.head_at),
            )
      ]
