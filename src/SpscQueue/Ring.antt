-- ===== src/SpscQueue/Ring.antt =====
-- The invariant of the two threads of include/spsc_queue.h, and what each store does to it.
use cpp_orderbook.Prelude.{
  ℕ, zero, suc, ◌+◌, ◌%◌, ◌≤◌, ◌<◌, ◌≡◌, ◌≢◌, refl, sym, ap, ◌∙◌, subst, List, [], ◌∷◌, ◌++◌,
  length, get_elem?, set, take, some, arith, length-append, length-set, get_elem?-set_ne,
  get_elem?-append_left, get_elem?-append_self,
}
use native.Mathlib.Decide.{dec_lt}
use native.Mathlib.Nat.{mod-eq_of_lt, add-mod_right}
use cpp_orderbook.SpscQueue.{SpscQueue, next_index}
use cpp_orderbook.SpscQueue.Steps.{
  Producer, resting, saw_head, saw_tail, wrote, Consumer, waiting, read_tail, read_head, took,
  State, start,
}
use cpp_orderbook.SpscQueue.Modulo.{IsSized, eq_of_mod, next_index_lem}

take-append_le :
    {A : Type 0} (n : ℕ) (xs ys : List A) → n ≤ length xs → take n (xs ++ ys) ≡ take n xs
take-append_le zero xs ys h = refl
take-append_le (suc n) [] ys h = absurd (omega arith)
take-append_le (suc n) (x ∷ xs) ys h = ap (λ l. x ∷ l) (take-append_le n xs ys (omega arith))

take-snoc :
    {A : Type 0} (n : ℕ) (xs : List A) (x : A)
    → get_elem? xs n ≡ some x
    → take (suc n) xs ≡ take n xs ++ x ∷ []
take-snoc n [] x h = absurd (cc)
take-snoc zero (y ∷ xs) x h = ground arith
take-snoc (suc n) (y ∷ xs) x h = ap (λ l. y ∷ l) (take-snoc n xs x h)

module _ {A : Type 0} where
  -- The indices are the remainders of the numbers of pushes and pops; neither thread has seen more
  -- of the other than there was; the items popped are the first ones pushed, in order; and each
  -- item between them is in its slot.
  pub record Ring (q : SpscQueue A) (pushed popped : List A) (pops_seen pushes_seen : ℕ)
      : Type 0 where
    pub sized : IsSized q.buffer
    pub head_at : q.head ≡ length pushed % length q.buffer
    pub tail_at : q.tail ≡ length popped % length q.buffer
    pub pops_bound : pops_seen ≤ length popped
    pub pushes_bound : pushes_seen ≤ length pushed
    pub behind : length popped ≤ pushes_seen
    pub room : length pushed < pops_seen + length q.buffer
    pub order : popped ≡ take (length popped) pushed
    pub slots :
        (i : ℕ)
        → length popped ≤ i
        → i < length pushed
        → get_elem? q.buffer (i % length q.buffer) ≡ get_elem? pushed i

  -- What the locals of `push` say.
  abbrev pub ProducerOk : List A → ℕ → ℕ → Producer A → Type 0
  ProducerOk buffer w r resting = Unit {0}
  ProducerOk buffer w r (saw_head x h) = h ≡ w % length buffer
  ProducerOk buffer w r (saw_tail x h t) = (h ≡ w % length buffer) × (t ≡ r % length buffer)
  ProducerOk buffer w r (wrote x h) =
      (h ≡ w % length buffer)
      × (w + 1 < r + length buffer)
      × (get_elem? buffer (w % length buffer) ≡ some x)

  -- What the locals of `pop` say.
  abbrev pub ConsumerOk : ℕ → List A → ℕ → ℕ → Consumer A → Type 0
  ConsumerOk n pushed r w waiting = Unit {0}
  ConsumerOk n pushed r w (read_tail t) = t ≡ r % n
  ConsumerOk n pushed r w (read_head t h) = (t ≡ r % n) × (h ≡ w % n)
  ConsumerOk n pushed r w (took t x) = (t ≡ r % n) × (r < w) × (get_elem? pushed r ≡ some x)

  pub ConsumerOk-append :
      (n : ℕ) (pushed : List A) (r w : ℕ) (ys : List A) (c : Consumer A)
      → w ≤ length pushed
      → ConsumerOk n pushed r w c
      → ConsumerOk n (pushed ++ ys) r w c
  ConsumerOk-append n pushed r w ys waiting h ok_c = tt
  ConsumerOk-append n pushed r w ys (read_tail t) h ok_c = ok_c
  ConsumerOk-append n pushed r w ys (read_head t d) h ok_c = ok_c
  ConsumerOk-append n pushed r w ys (took t x) h ok_c =
      (ok_c.0, ok_c.1, get_elem?-append_left pushed ys r (omega (arith, ok_c.1)) ∙ ok_c.2)

  pub record Inv (s : State A) : Type 0 where
    pub ring : Ring s.queue s.pushed s.popped s.pops_seen s.pushes_seen
    pub producer_ok : ProducerOk s.queue.buffer (length s.pushed) s.pops_seen s.producer
    pub consumer_ok :
        ConsumerOk (length s.queue.buffer) s.pushed (length s.popped) s.pushes_seen s.consumer

  pub start-Inv : (q : SpscQueue A) → IsSized q.buffer → q.head ≡ 0 → q.tail ≡ 0 → Inv (start q)
  start-Inv q v h t = record {
    ring = record {
      sized = v;
      head_at = h ∙ sym (mod-eq_of_lt v.some_slot);
      tail_at = t ∙ sym (mod-eq_of_lt v.some_slot);
      pops_bound = omega arith;
      pushes_bound = omega arith;
      behind = omega arith;
      room = omega (arith, v.some_slot);
      order = refl;
      slots = λ i low high. absurd (omega arith);
    };
    producer_ok = tt;
    consumer_ok = tt;
  }

  module _ {s : State A} (v : Inv s) where
    pub producer_at :
        {p : Producer A}
        → s.producer ≡ p
        → ProducerOk s.queue.buffer (length s.pushed) s.pops_seen p
    producer_at e = subst (ProducerOk s.queue.buffer (length s.pushed) s.pops_seen) e v.producer_ok

    pub consumer_at :
        {c : Consumer A}
        → s.consumer ≡ c
        → ConsumerOk (length s.queue.buffer) s.pushed (length s.popped) s.pushes_seen c
    consumer_at e =
        subst (ConsumerOk (length s.queue.buffer) s.pushed (length s.popped) s.pushes_seen) e
          v.consumer_ok

    -- A push that found a slot free has at most all but one of the other slots in use.
    pub free_slot :
        (x : A) (h t : ℕ)
        → s.producer ≡ saw_tail x h t
        → next_index s.queue.buffer h ≢ t
        → length s.pushed + 1 < s.pops_seen + length s.queue.buffer
    free_slot x h t e ne =
        let ring = v.ring in
        let (at_h, at_t) = producer_at e in
        let n = length s.queue.buffer in
        elim (dec_lt (length s.pushed + 1) (s.pops_seen + n)) [
          | yes p ↦ p
          | no p ↦
              let full : length s.pushed + 1 ≡ s.pops_seen + n = omega (arith, v.ring.room) in
              absurd (
                ne (
                  ap (next_index s.queue.buffer) at_h
                  ∙ next_index_lem s.queue.buffer (length s.pushed) v.ring.sized
                  ∙ ap (λ k. k % n) full
                  ∙ add-mod_right s.pops_seen n
                  ∙ sym at_t))
        ]

    -- The write of `push` goes to a slot that holds no item of the queue.
    pub writes_Ring :
        (x : A)
        → length s.pushed + 1 < s.pops_seen + length s.queue.buffer
        → Ring
            (record s.queue {
              buffer = set s.queue.buffer (length s.pushed % length s.queue.buffer) x;
            })
            s.pushed
            s.popped
            s.pops_seen
            s.pushes_seen
    writes_Ring x free =
        let n = length s.queue.buffer in
        let w = length s.pushed in
        let same : length (set s.queue.buffer (w % n) x) ≡ n =
          length-set s.queue.buffer (w % n) x in
        record {
          sized = record {
            some_slot = omega (arith, v.ring.sized.some_slot, same);
            fits = omega (arith, v.ring.sized.fits, same);
          };
          head_at = v.ring.head_at ∙ ap (λ k. w % k) (sym same);
          tail_at = v.ring.tail_at ∙ ap (λ k. length s.popped % k) (sym same);
          pops_bound = v.ring.pops_bound;
          pushes_bound = v.ring.pushes_bound;
          behind = v.ring.behind;
          room = omega (arith, v.ring.room, same);
          order = v.ring.order;
          slots = λ i low high.
              let other : w % n ≢ i % n = λ e. absurd (
                omega (
                  arith,
                  eq_of_mod n w i (omega arith) (omega (arith, v.ring.room, v.ring.pops_bound)) e,
                )) in
              ap (λ k. get_elem? (set s.queue.buffer (w % n) x) (i % k)) same
              ∙ get_elem?-set_ne s.queue.buffer (w % n) (i % n) x other
              ∙ v.ring.slots i low high;
        }

    -- The store of `_head` adds the item written to the queue.
    pub stores_Ring :
        (x : A)
        → length s.pushed + 1 < s.pops_seen + length s.queue.buffer
        → get_elem? s.queue.buffer (length s.pushed % length s.queue.buffer) ≡ some x
        → Ring
            (record s.queue {
              head = next_index s.queue.buffer (length s.pushed % length s.queue.buffer);
            })
            (s.pushed ++ x ∷ [])
            s.popped
            s.pops_seen
            s.pushes_seen
    stores_Ring x free written =
        let n = length s.queue.buffer in
        let w = length s.pushed in
        let longer : length (s.pushed ++ x ∷ []) ≡ w + 1 = length-append s.pushed (x ∷ []) in
        record {
          sized = v.ring.sized;
          head_at = next_index_lem s.queue.buffer w v.ring.sized ∙ ap (λ k. k % n) (sym longer);
          tail_at = v.ring.tail_at;
          pops_bound = v.ring.pops_bound;
          pushes_bound = omega (arith, v.ring.pushes_bound, longer);
          behind = v.ring.behind;
          room = omega (arith, longer);
          order =
              v.ring.order
              ∙ sym (
                  take-append_le (length s.popped) s.pushed (x ∷ [])
                    (omega (arith, v.ring.behind, v.ring.pushes_bound)));
          slots = λ i low high. elim (dec_lt i w) [
            | yes old ↦ v.ring.slots i low old ∙ sym (get_elem?-append_left s.pushed (x ∷ []) i old)
            | no new ↦
                let same : w ≡ i = omega (arith, longer) in
                subst (λ k. get_elem? s.queue.buffer (k % n) ≡ get_elem? (s.pushed ++ x ∷ []) k)
                  same (written ∙ sym (get_elem?-append_self s.pushed x []))
          ];
        }

    -- The store of `_tail` takes the oldest item out of the queue.
    pub pops_Ring :
        (x : A)
        → length s.popped < s.pushes_seen
        → get_elem? s.pushed (length s.popped) ≡ some x
        → Ring
            (record s.queue {
              tail = next_index s.queue.buffer (length s.popped % length s.queue.buffer);
            })
            s.pushed
            (s.popped ++ x ∷ [])
            s.pops_seen
            s.pushes_seen
    pops_Ring x seen oldest =
        let n = length s.queue.buffer in
        let r = length s.popped in
        let longer : length (s.popped ++ x ∷ []) ≡ r + 1 = length-append s.popped (x ∷ []) in
        let one_more : suc r ≡ length (s.popped ++ x ∷ []) = omega (arith, longer) in
        record {
          sized = v.ring.sized;
          head_at = v.ring.head_at;
          tail_at = next_index_lem s.queue.buffer r v.ring.sized ∙ ap (λ k. k % n) (sym longer);
          pops_bound = omega (arith, v.ring.pops_bound, longer);
          pushes_bound = v.ring.pushes_bound;
          behind = omega (arith, longer);
          room = v.ring.room;
          order =
              ap (λ l. l ++ x ∷ []) v.ring.order
              ∙ sym (take-snoc r s.pushed x oldest)
              ∙ ap (λ k. take k s.pushed) one_more;
          slots = λ i low high. v.ring.slots i (omega (arith, longer)) high;
        }
