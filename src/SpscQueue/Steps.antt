-- ===== src/SpscQueue/Steps.antt =====
-- The methods of include/spsc_queue.h as sequences of loads and stores, in any interleaving of the
-- two threads.
--
-- Only the producer stores `_head` and only the consumer stores `_tail`. A load of the other
-- thread's index may return a value that is not the newest: any that was stored since the one that
-- the loading thread saw last, which is what coherence of one atomic variable gives. The release
-- and acquire orderings make the writes to the buffer that precede a store visible with it.
use cpp_orderbook.Prelude.{
  ℕ, zero, suc, ◌≤◌, ◌≡◌, ◌≢◌, List, [], ◌∷◌, ◌++◌, length, get_elem?, set, some,
}
use cpp_orderbook.SpscQueue.{SpscQueue, next_index}

module _ {ℓ} (A : Type ℓ) where
  -- Where `push` is: before it, after the load of `_head`, after that of `_tail`, and after the
  -- write into the buffer.
  pub data Producer : Type ℓ where
    resting : Producer
    saw_head : A → ℕ → Producer
    saw_tail : A → ℕ → ℕ → Producer
    wrote : A → ℕ → Producer

  -- Where `pop` is: before it, after the load of `_tail`, after that of `_head`, and after the read
  -- from the buffer.
  pub data Consumer : Type ℓ where
    waiting : Consumer
    read_tail : ℕ → Consumer
    read_head : ℕ → ℕ → Consumer
    took : ℕ → A → Consumer

  -- Beside the queue: what has been pushed and popped so far, and how many pops and pushes the
  -- last load of the other thread's index had seen.
  pub record State : Type ℓ where
    pub queue : SpscQueue A
    pub producer : Producer
    pub consumer : Consumer
    pub pushed : List A
    pub popped : List A
    pub pops_seen : ℕ
    pub pushes_seen : ℕ

module _ {ℓ} {A : Type ℓ} where
  -- The value of an index after that many stores.
  abbrev pub position : List A → ℕ → ℕ
  position buffer zero = 0
  position buffer (suc n) = next_index buffer (position buffer n)

  pub data Step (s : State A) : State A → Type ℓ where
    push_starts :
        (x : A) → s.producer ≡ resting → Step s (record s { producer = saw_head x s.queue.head })
    push_loads :
        (x : A) (h r : ℕ)
        → s.producer ≡ saw_head x h
        → s.pops_seen ≤ r
        → r ≤ length s.popped
        → Step s (record s { producer = saw_tail x h (position s.queue.buffer r); pops_seen = r })
    push_fails :
        (x : A) (h t : ℕ)
        → s.producer ≡ saw_tail x h t
        → next_index s.queue.buffer h ≡ t
        → Step s (record s { producer = resting })
    push_writes :
        (x : A) (h t : ℕ)
        → s.producer ≡ saw_tail x h t
        → next_index s.queue.buffer h ≢ t
        → Step s (record s {
          queue = record s.queue { buffer = set s.queue.buffer h x };
          producer = wrote x h;
        })
    push_stores :
        (x : A) (h : ℕ)
        → s.producer ≡ wrote x h
        → Step s (record s {
          queue = record s.queue { head = next_index s.queue.buffer h };
          producer = resting;
          pushed = s.pushed ++ x ∷ [];
        })
    pop_starts : s.consumer ≡ waiting → Step s (record s { consumer = read_tail s.queue.tail })
    pop_loads :
        (t w : ℕ)
        → s.consumer ≡ read_tail t
        → s.pushes_seen ≤ w
        → w ≤ length s.pushed
        → Step s (record s { consumer = read_head t (position s.queue.buffer w); pushes_seen = w })
    pop_fails :
        (t h : ℕ) → s.consumer ≡ read_head t h → t ≡ h → Step s (record s { consumer = waiting })
    pop_reads :
        (t h : ℕ) (x : A)
        → s.consumer ≡ read_head t h
        → t ≢ h
        → get_elem? s.queue.buffer t ≡ some x
        → Step s (record s { consumer = took t x })
    pop_stores :
        (t : ℕ) (x : A)
        → s.consumer ≡ took t x
        → Step s (record s {
          queue = record s.queue { tail = next_index s.queue.buffer t };
          consumer = waiting;
          popped = s.popped ++ x ∷ [];
        })

  pub data Reach (s : State A) : State A → Type ℓ where
    here : Reach s s
    then_step : {t u : State A} → Reach s t → Step t u → Reach s u

  -- Both threads about to begin, nothing pushed yet.
  abbrev pub start : SpscQueue A → State A
  start q = record {
    queue = q;
    producer = resting;
    consumer = waiting;
    pushed = [];
    popped = [];
    pops_seen = 0;
    pushes_seen = 0;
  }
