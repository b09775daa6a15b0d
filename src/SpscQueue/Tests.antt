-- ===== src/SpscQueue/Tests.antt =====
-- The queue at concrete inputs.
use cpp_orderbook.Prelude.{
  ℕ, ◌≤◌, ◌<◌, ◌≡◌, ◌≢◌, refl, ◌⊎◌, [], ◌∷◌, get_elem?, take, true, false, none, some, ok, arith,
}
use cpp_orderbook.SpscQueue.{SpscQueue, make_queue, next_index, push, pop}
use cpp_orderbook.SpscQueue.Steps.{
  State, Reach, here, then_step, push_starts, push_loads, push_writes, push_stores, pop_starts,
  pop_loads, pop_reads, start, resting, waiting, saw_tail, read_head,
}
use cpp_orderbook.SpscQueue.Ring.{Inv, start-Inv}
use cpp_orderbook.SpscQueue.Inv.{Reach-Inv}
use cpp_orderbook.SpscQueue.Fifo.{popped-eq-take, slots_apart}
use cpp_orderbook.SpscQueue.Calls.{push_lem, pop_lem}
use cpp_orderbook.SpscQueue.Filled.{Takes, Gives, Takes-Gives}

abbrev three : SpscQueue ℕ
three = record { buffer = 0 ∷ 0 ∷ 0 ∷ []; head = 0; tail = 0 }

-- 8 and 9 pushed, 8 popped.
abbrev used : SpscQueue ℕ
used = record { buffer = 8 ∷ 9 ∷ 0 ∷ []; head = 2; tail = 1 }

abbrev all_used : SpscQueue ℕ
all_used = record { buffer = 8 ∷ 9 ∷ 7 ∷ []; head = 0; tail = 1 }

push_pop : push 7 used ≡ ok (true, all_used)
unfolding push
push_pop = refl

push_full : push {A = ℕ} 6 all_used ≡ ok (false, all_used)
unfolding push
push_full = refl

three-Inv : Inv (start three)
three-Inv = start-Inv three (omega arith) refl refl

-- One push into a new queue of three slots.
abbrev pushed_seven : State ℕ
pushed_seven = record (start three) {
  queue = record { buffer = 7 ∷ 0 ∷ 0 ∷ []; head = 1; tail = 0 };
  pushed = 7 ∷ [];
}

one_push : Reach (start (make_queue 3 0)) pushed_seven
unfolding make_queue next_index
one_push =
    then_step
      (then_step
        (then_step (then_step here (push_starts 7 refl))
          (push_loads 7 0 0 refl (omega arith) (omega arith)))
        (push_writes 7 0 0 refl (omega arith)))
      (push_stores 7 0 refl)

popped-eq-take_example : ([] ≡ take 0 pushed_seven.pushed) × (0 ≤ 1) × (1 < 3)
popped-eq-take_example = popped-eq-take 3 0 (omega arith) (omega arith) one_push

-- A second push is about to write, and a pop about to read.
abbrev racing : State ℕ
racing = record pushed_seven {
  producer = saw_tail 9 1 0;
  consumer = read_head 0 1;
  pushes_seen = 1;
}

two_race : Reach (start (make_queue 3 0)) racing
unfolding make_queue next_index
two_race =
    then_step
      (then_step
        (then_step (then_step one_push (push_starts 9 refl))
          (push_loads 9 1 0 refl (omega arith) (omega arith)))
        (pop_starts refl))
      (pop_loads 0 1 refl (omega arith) (omega arith))

slots_apart_example : ◌≢◌ {A = ℕ} 1 0 × (get_elem? racing.pushed 0 ≡ some 7) × (2 < 3)
unfolding next_index
slots_apart_example =
    slots_apart 3 0 9 7 1 0 (omega arith) (omega arith) two_race
      (push_writes 9 1 0 refl (omega arith)) (λ e. absurd (cc)) refl
      (pop_reads 0 1 7 refl (omega arith) refl) (λ e. absurd (cc)) refl

pushed_seven-Inv : Inv pushed_seven
unfolding make_queue
pushed_seven-Inv = Reach-Inv one_push three-Inv

push_lem_example :
    ((q' : SpscQueue ℕ) × (2 < 3)
      × (push 9 pushed_seven.queue ≡ ok (true, q'))
      × Reach pushed_seven (record pushed_seven {
        queue = q';
        producer = resting;
        pushed = 7 ∷ 9 ∷ [];
        pops_seen = 0;
      }))
    ⊎ (◌≡◌ {A = ℕ} 2 3 × (push 9 pushed_seven.queue ≡ ok (false, pushed_seven.queue)))
push_lem_example = push_lem 9 pushed_seven-Inv refl

pop_lem_example :
    ((y : ℕ) × (q' : SpscQueue ℕ) × (get_elem? (7 ∷ []) 0 ≡ some y)
      × (pop pushed_seven.queue ≡ ok (some y, q'))
      × Reach pushed_seven (record pushed_seven {
        queue = q';
        consumer = waiting;
        popped = y ∷ [];
        pushes_seen = 1;
      }))
    ⊎ (◌≡◌ {A = ℕ} 1 0 × (pop pushed_seven.queue ≡ ok (none, pushed_seven.queue)))
pop_lem_example = pop_lem pushed_seven-Inv refl

Takes-Gives_example :
    (q : SpscQueue ℕ) × Takes (make_queue 4 0) (7 ∷ 8 ∷ 9 ∷ []) q × Gives q (7 ∷ 8 ∷ 9 ∷ [])
Takes-Gives_example = Takes-Gives 4 0 (7 ∷ 8 ∷ 9 ∷ []) (omega arith) (omega arith)
