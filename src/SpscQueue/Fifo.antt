-- ===== src/SpscQueue/Fifo.antt =====
-- What the queue of include/spsc_queue.h promises its two threads, whatever the interleaving.
use cpp_orderbook.Prelude.{
  ℕ, ◌+◌, ◌%◌, ◌^◌, ◌≤◌, length-replicate, ◌<◌, ◌≡◌, ◌≢◌, refl, sym, ap, ◌∙◌, length, get_elem?,
  take, some, arith, length-set,
}
use native.Mathlib.Decide.{dec_lt}
use cpp_orderbook.SpscQueue.{next_index, make_queue}
use cpp_orderbook.SpscQueue.Steps.{
  saw_tail, wrote, read_head, took, State, Step, push_starts, push_loads, push_fails, push_writes,
  push_stores, pop_starts, pop_loads, pop_fails, pop_reads, pop_stores, Reach, here, then_step,
  start,
}
use cpp_orderbook.SpscQueue.Modulo.{eq_of_mod}
use cpp_orderbook.SpscQueue.Ring.{Inv, producer_at, consumer_at, free_slot, start-Inv}
use cpp_orderbook.SpscQueue.Inv.{Reach-Inv}

module _ {A : Type 0} where
  Step-length : {s s' : State A} → Step s s' → length s'.queue.buffer ≡ length s.queue.buffer
  Step-length {s} (push_writes x h t e ne) = length-set s.queue.buffer h x
  Step-length {s} (push_starts x e) = refl
  Step-length {s} (push_loads x h r e low high) = refl
  Step-length {s} (push_fails x h t e full) = refl
  Step-length {s} (push_stores x h e) = refl
  Step-length {s} (pop_starts e) = refl
  Step-length {s} (pop_loads t w e low high) = refl
  Step-length {s} (pop_fails t h e none_left) = refl
  Step-length {s} (pop_reads t h x e ne there) = refl
  Step-length {s} (pop_stores t x e) = refl

  pub Reach-length : {s s' : State A} → Reach s s' → length s'.queue.buffer ≡ length s.queue.buffer
  Reach-length here = refl
  Reach-length (then_step r st) = Step-length st ∙ Reach-length r

  reachable-Inv :
      (capacity : ℕ) (item : A) {s : State A}
      → 0 < capacity
      → capacity ≤ 2 ^ 63
      → Reach (start (make_queue capacity item)) s
      → Inv s
  unfolding make_queue
  reachable-Inv capacity item some_slot fits r =
      let n = length-replicate capacity item in
      Reach-Inv r (
        start-Inv (make_queue capacity item)
          (record { some_slot = omega (arith, n); fits = omega (arith, n) }) refl refl)

  reachable-length :
      (capacity : ℕ) (item : A) {s : State A}
      → Reach (start (make_queue capacity item)) s
      → length s.queue.buffer ≡ capacity
  unfolding make_queue
  reachable-length capacity item r = Reach-length r ∙ length-replicate capacity item

  -- From a new queue, whatever steps the two threads take: the items popped are the first of the
  -- items pushed, each once and in the order of the pushes, and at most one item less than the
  -- capacity waits in the queue.
  pub popped-eq-take :
      (capacity : ℕ) (item : A) {s : State A}
      → 0 < capacity
      → capacity ≤ 2 ^ 63
      → Reach (start (make_queue capacity item)) s
      → (s.popped ≡ take (length s.popped) s.pushed)
        × (length s.popped ≤ length s.pushed)
        × (length s.pushed < length s.popped + capacity)
  popped-eq-take capacity item {s} some_slot fits r =
      let v = reachable-Inv capacity item some_slot fits r in
      (
        v.ring.order,
        omega (arith, v.ring.behind, v.ring.pushes_bound),
        omega (arith, v.ring.room, v.ring.pops_bound, reachable-length capacity item r),
      )

  -- A step that writes found the queue not full, and a step that reads found it not empty.
  record Writes (s : State A) (x : A) (h : ℕ) : Type 0 where
    pub t : ℕ
    pub saw : s.producer ≡ saw_tail x h t
    pub not_full : next_index s.queue.buffer h ≢ t

  record Reads (s : State A) (y : A) (t : ℕ) : Type 0 where
    pub h : ℕ
    pub saw : s.consumer ≡ read_head t h
    pub not_empty : t ≢ h
    pub there : get_elem? s.queue.buffer t ≡ some y

  Step-Writes :
      {s s' : State A} (x : A) (h : ℕ)
      → Step s s'
      → s.producer ≢ wrote x h
      → s'.producer ≡ wrote x h
      → Writes s x h
  Step-Writes {s} x h (push_writes y i t saw not_full) before after =
      let same : (y ≡ x) × (i ≡ h) = (cc, cc) in
      record {
        t = t;
        saw = saw ∙ ap (λ z. saw_tail z i t) same.0 ∙ ap (λ k. saw_tail x k t) same.1;
        not_full = λ e. not_full (ap (next_index s.queue.buffer) same.1 ∙ e);
      }
  Step-Writes x h (push_starts y e) before after = absurd (cc)
  Step-Writes x h (push_loads y i r e low high) before after = absurd (cc)
  Step-Writes x h (push_fails y i t e full) before after = absurd (cc)
  Step-Writes x h (push_stores y i e) before after = absurd (cc)
  Step-Writes x h (pop_starts e) before after = absurd (before after)
  Step-Writes x h (pop_loads t w e low high) before after = absurd (before after)
  Step-Writes x h (pop_fails t i e none_left) before after = absurd (before after)
  Step-Writes x h (pop_reads t i y e ne there) before after = absurd (before after)
  Step-Writes x h (pop_stores t y e) before after = absurd (before after)

  Step-Reads :
      {s s' : State A} (y : A) (t : ℕ)
      → Step s s'
      → s.consumer ≢ took t y
      → s'.consumer ≡ took t y
      → Reads s y t
  Step-Reads {s} y t (pop_reads i h x saw ne there) before after =
      let same : (x ≡ y) × (i ≡ t) = (cc, cc) in
      record {
        h = h;
        saw = saw ∙ ap (λ k. read_head k h) same.1;
        not_empty = λ e. ne (same.1 ∙ e);
        there = ap (get_elem? s.queue.buffer) (sym same.1) ∙ there ∙ ap some same.0;
      }
  Step-Reads y t (push_starts x e) before after = absurd (before after)
  Step-Reads y t (push_loads x h r e low high) before after = absurd (before after)
  Step-Reads y t (push_fails x h i e full) before after = absurd (before after)
  Step-Reads y t (push_writes x h i e ne) before after = absurd (before after)
  Step-Reads y t (push_stores x h e) before after = absurd (before after)
  Step-Reads y t (pop_starts e) before after = absurd (cc)
  Step-Reads y t (pop_loads i w e low high) before after = absurd (cc)
  Step-Reads y t (pop_fails i h e none_left) before after = absurd (cc)
  Step-Reads y t (pop_stores i x e) before after = absurd (cc)

  oldest_item :
      {s : State A} (y : A) (t : ℕ)
      → Inv s
      → Reads s y t
      → (t ≡ length s.popped % length s.queue.buffer)
        × (length s.popped < length s.pushed)
        × (get_elem? s.pushed (length s.popped) ≡ some y)
  oldest_item {s} y t v reads =
      let n = length s.queue.buffer in
      let r = length s.popped in
      let (at_t, at_h) = consumer_at v reads.saw in
      let seen : r < s.pushes_seen = elim (dec_lt r s.pushes_seen) [
        | yes p ↦ p
        | no p ↦
            let caught_up : r ≡ s.pushes_seen = omega (arith, v.ring.behind) in
            absurd (reads.not_empty (at_t ∙ ap (λ k. k % n) caught_up ∙ sym at_h))
      ] in
      (
        at_t,
        omega (arith, seen, v.ring.pushes_bound),
        sym (v.ring.slots r (omega arith) (omega (arith, seen, v.ring.pushes_bound)))
            ∙ ap (get_elem? s.queue.buffer) (sym at_t)
            ∙ reads.there,
      )

  -- From a new queue of 1 to 2^63 slots, whatever steps the two threads took: where one step would
  -- write the producer's item into a slot, and one would read an item from a slot for the consumer,
  -- these are two slots, the item read is the oldest that has not been popped, and fewer items than
  -- the capacity less one have been pushed and not popped.
  pub slots_apart :
      (capacity : ℕ) (item : A) {s s₁ s₂ : State A} (x y : A) (h t : ℕ)
      → 0 < capacity
      → capacity ≤ 2 ^ 63
      → Reach (start (make_queue capacity item)) s
      → Step s s₁
      → s.producer ≢ wrote x h
      → s₁.producer ≡ wrote x h
      → Step s s₂
      → s.consumer ≢ took t y
      → s₂.consumer ≡ took t y
      → (h ≢ t)
        × (get_elem? s.pushed (length s.popped) ≡ some y)
        × (length s.pushed + 1 < length s.popped + capacity)
  slots_apart capacity item {s} x y h t some_slot fits r writing not_written written reading
        not_taken taken =
      let v = reachable-Inv capacity item some_slot fits r in
      let writes = Step-Writes x h writing not_written written in
      let (at_t, some_item, oldest) = oldest_item y t v (Step-Reads y t reading not_taken taken) in
      let room = free_slot v x h writes.t writes.saw writes.not_full in
      let at_h = (producer_at v writes.saw).0 in
      let n = length s.queue.buffer in
      (
        λ e. absurd (
            omega (
              arith,
              some_item,
              eq_of_mod n (length s.pushed) (length s.popped) (omega (arith, some_item))
                  (omega (arith, v.ring.room, v.ring.pops_bound)) (sym at_h ∙ e ∙ at_t),
            )),
        oldest,
        omega (arith, room, v.ring.pops_bound, reachable-length capacity item r),
      )
