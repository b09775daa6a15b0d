-- ===== src/SpscQueue/Inv.antt =====
-- What every interleaving of the threads of include/spsc_queue.h keeps.
use cpp_orderbook.Prelude.{
  ◌%◌, ◌<◌, ◌≡◌, sym, ap, ◌∙◌, subst, [], ◌∷◌, ◌++◌, length, get_elem?, set, arith, length-set,
  get_elem?-set_self,
}
use native.Mathlib.Decide.{dec_lt}
use native.Mathlib.Nat.{mod-lt}
use cpp_orderbook.SpscQueue.{next_index}
use cpp_orderbook.SpscQueue.Steps.{
  resting, wrote, waiting, State, Step, push_starts, push_loads, push_fails, push_writes,
  push_stores, pop_starts, pop_loads, pop_fails, pop_reads, pop_stores, Reach, here, then_step,
}
use cpp_orderbook.SpscQueue.Modulo.{position_lem}
use cpp_orderbook.SpscQueue.Ring.{
  ConsumerOk, ConsumerOk-append, Inv, producer_at, consumer_at, free_slot, writes_Ring, stores_Ring,
  pops_Ring,
}

module _ {A : Type 0} where
  pub Step-Inv : {s s' : State A} → Step s s' → Inv s → Inv s'
  Step-Inv {s} (push_starts x e) v = record {
    ring = v.ring;
    producer_ok = v.ring.head_at;
    consumer_ok = v.consumer_ok;
  }
  Step-Inv {s} (push_loads x h r e low high) v = record {
    ring = record {
      sized = v.ring.sized;
      head_at = v.ring.head_at;
      tail_at = v.ring.tail_at;
      pops_bound = high;
      pushes_bound = v.ring.pushes_bound;
      behind = v.ring.behind;
      room = omega (arith, v.ring.room);
      order = v.ring.order;
      slots = v.ring.slots;
    };
    producer_ok = (producer_at v e, position_lem s.queue.buffer r v.ring.sized);
    consumer_ok = v.consumer_ok;
  }
  Step-Inv {s} (push_fails x h t e full) v = record {
    ring = v.ring;
    producer_ok = tt;
    consumer_ok = v.consumer_ok;
  }
  Step-Inv {s} (push_writes x h t e ne) v =
      let free = free_slot v x h t e ne in
      let at_h = (producer_at v e).0 in
      let n = length s.queue.buffer in
      let w = length s.pushed in
      let same : length (set s.queue.buffer (w % n) x) ≡ n = length-set s.queue.buffer (w % n) x in
      subst
        (λ k. Inv (record s {
          queue = record s.queue { buffer = set s.queue.buffer k x };
          producer = wrote x k;
        }))
        (sym at_h)
        (record {
          ring = writes_Ring v x free;
          producer_ok = (
            ap (λ k. w % k) (sym same),
            omega (arith, same),
            ap (λ k. get_elem? (set s.queue.buffer (w % n) x) (w % k)) same
                ∙ get_elem?-set_self s.queue.buffer (w % n) x (mod-lt w v.ring.sized.some_slot),
          );
          consumer_ok =
              subst (λ k. ConsumerOk k s.pushed (length s.popped) s.pushes_seen s.consumer)
                (sym same) v.consumer_ok;
        })
  Step-Inv {s} (push_stores x h e) v =
      let (at_h, free, written) = producer_at v e in
      subst
        (λ k. Inv (record s {
          queue = record s.queue { head = next_index s.queue.buffer k };
          producer = resting;
          pushed = s.pushed ++ x ∷ [];
        }))
        (sym at_h)
        (record {
          ring = stores_Ring v x free written;
          producer_ok = tt;
          consumer_ok =
              ConsumerOk-append (length s.queue.buffer) s.pushed (length s.popped) s.pushes_seen
                (x ∷ []) s.consumer v.ring.pushes_bound v.consumer_ok;
        })
  Step-Inv {s} (pop_starts e) v = record {
    ring = v.ring;
    producer_ok = v.producer_ok;
    consumer_ok = v.ring.tail_at;
  }
  Step-Inv {s} (pop_loads t w e low high) v = record {
    ring = record {
      sized = v.ring.sized;
      head_at = v.ring.head_at;
      tail_at = v.ring.tail_at;
      pops_bound = v.ring.pops_bound;
      pushes_bound = high;
      behind = omega (arith, v.ring.behind);
      room = v.ring.room;
      order = v.ring.order;
      slots = v.ring.slots;
    };
    producer_ok = v.producer_ok;
    consumer_ok = (consumer_at v e, position_lem s.queue.buffer w v.ring.sized);
  }
  Step-Inv {s} (pop_fails t h e none_left) v = record {
    ring = v.ring;
    producer_ok = v.producer_ok;
    consumer_ok = tt;
  }
  Step-Inv {s} (pop_reads t h x e ne there) v =
      let (at_t, at_h) = consumer_at v e in
      let n = length s.queue.buffer in
      let r = length s.popped in
      let seen : r < s.pushes_seen = elim (dec_lt r s.pushes_seen) [
        | yes p ↦ p
        | no p ↦
            let caught_up : r ≡ s.pushes_seen = omega (arith, v.ring.behind) in
            absurd (ne (at_t ∙ ap (λ k. k % n) caught_up ∙ sym at_h))
      ] in
      let oldest =
        sym (v.ring.slots r (omega arith) (omega (arith, v.ring.pushes_bound)))
        ∙ ap (get_elem? s.queue.buffer) (sym at_t)
        ∙ there in
      record { ring = v.ring; producer_ok = v.producer_ok; consumer_ok = (at_t, seen, oldest) }
  Step-Inv {s} (pop_stores t x e) v =
      let (at_t, seen, oldest) = consumer_at v e in
      subst
        (λ k. Inv (record s {
          queue = record s.queue { tail = next_index s.queue.buffer k };
          consumer = waiting;
          popped = s.popped ++ x ∷ [];
        }))
        (sym at_t)
        (record { ring = pops_Ring v x seen oldest; producer_ok = v.producer_ok; consumer_ok = tt })

  pub Reach-Inv : {s s' : State A} → Reach s s' → Inv s → Inv s'
  Reach-Inv here v = v
  Reach-Inv (then_step r st) v = Step-Inv st (Reach-Inv r v)
