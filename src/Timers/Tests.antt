-- ===== src/Timers/Tests.antt =====
-- A timer heap at work, and the theorems about it at concrete heaps.
use zbluenet.Base.{ℕ, ◌≡◌, refl, arith, ◌==◌, List, [], ◌∷◌, Ends, Outcome, done, fault, ◌>>=◌, map}
use zbluenet.Base.Int.{pos, negsuc}
use zbluenet.Time.{Timestamp, add_millisecond, less, millisecond_less}
use zbluenet.Timers.{
  Timer, no_timer, Impl, new, update, add_timer, remove_timer, min_heap_top, expire, check_timeout,
  next_id, make_timer, min_heap_insert, min_heap_erase, erase_at, replace_timer, append_timer,
  sift_up, sift_down, smaller_child, swap_timers, set_heap_pos, is_one, renew_timer, forget_timer,
  dec_call_times,
}
use zbluenet.Timers.Order.{IsHeap}
use zbluenet.Timers.Valid.{IsValid}
use zbluenet.Timers.Add.{Added, add_timer_lem, add_timer-IsHeap}
use zbluenet.Timers.Remove.{Removed, remove_timer_lem}
use zbluenet.Timers.Expire.{IsSteady, Expired, expire_lem}
use zbluenet.Timers.Check.{IsReady, AllLater, check_timeout_lem}

abbrev start : Timestamp
start = record { second = 1; nanosecond = 0 }

abbrev added : List ℕ → Outcome Impl → Outcome Impl
added [] s = s
added (ms ∷ rest) s =
    added rest (s >>= λ t. add_timer start (pos ms) (pos 1) t >>= λ (_, u). done u)

-- The seconds and nanoseconds of the timers in the vector.
abbrev order_of : Impl → List ℕ
order_of s = map (λ id. (s.objects id).value.nanosecond) s.timer_min_heap

-- One-shot timers are called in the order in which they are due.
calls_in_order :
    (added (30 ∷ 10 ∷ 20 ∷ 5 ∷ []) (done new) >>= λ s.
    check_timeout (λ _ t. t) 10 (add_millisecond start 25) s >>= λ (called, _). done called)
    ≡ done (4 ∷ 2 ∷ 3 ∷ [])
unfolding add_timer new next_id make_timer min_heap_insert append_timer sift_up swap_timers
    set_heap_pos check_timeout min_heap_top expire min_heap_erase erase_at replace_timer sift_down
    smaller_child is_one forget_timer less millisecond_less add_millisecond
calls_in_order = refl

-- A timer removed from the middle of the heap may leave it out of order: here the timer due
-- at 3 ms ends up below the one due at 10 ms.
disordered :
    (added (1 ∷ 10 ∷ 2 ∷ 11 ∷ 12 ∷ 4 ∷ 3 ∷ []) (done new) >>= λ s.
    remove_timer 4 s >>= λ t. done (order_of t))
    ≡ done (0 ∷ 1000000 ∷ 10000000 ∷ 2000000 ∷ 3000000 ∷ 12000000 ∷ 4000000 ∷ [])
unfolding add_timer new next_id make_timer min_heap_insert append_timer sift_up swap_timers
    set_heap_pos remove_timer min_heap_erase erase_at replace_timer sift_down smaller_child
    forget_timer less add_millisecond
disordered = refl

-- A timer without a timeout that is called for ever is due again in each round.
endless :
    (add_timer start (pos 0) (negsuc 0) new >>= λ (_, s).
    check_timeout (λ _ t. t) 20 start s >>= λ (called, _). done called)
    ≡ fault
unfolding add_timer new next_id make_timer min_heap_insert append_timer sift_up swap_timers
    set_heap_pos check_timeout min_heap_top expire min_heap_erase erase_at replace_timer sift_down
    smaller_child is_one renew_timer dec_call_times less millisecond_less add_millisecond
endless = refl

-- A timer called every 10 ms, due at `start`.
abbrev ticker : Timer
ticker = record { heap_pos = pos 1; value = start; timeout_millisec = 10; call_times = negsuc 0 }

abbrev single : Impl
single = record {
  timer_id = 1;
  timer_map = λ id. 1 == id;
  objects = update (λ _. no_timer) 1 ticker;
  timer_min_heap = 0 ∷ 1 ∷ [];
}

single-IsValid : IsValid single
single-IsValid = record {
  holding = record {
    linked = record {
      root = omega arith;
      null = refl;
      linked = λ i p h. ground arith;
      normal = λ id. ground arith;
    };
    counts = λ id n. ground arith;
    null_once = refl;
    no_null = refl;
  };
  fresh = λ id h. ground arith;
}

single-IsHeap : IsHeap single
single-IsHeap c p h = absurd (omega arith)

single-IsSteady : IsSteady single
single-IsSteady id live again = ground arith

add_timer_lem_example :
    Ends (Added start 30 (pos 1) single) (add_timer start (pos 30) (pos 1) single)
add_timer_lem_example =
    add_timer_lem start (pos 30) (pos 1) single single-IsValid (omega arith) (omega arith)

add_timer-IsHeap_example : Ends (λ (_, t). IsHeap t) (add_timer start (pos 30) (pos 1) single)
add_timer-IsHeap_example =
    add_timer-IsHeap start (pos 30) (pos 1) single single-IsValid (omega arith) (omega arith)
      single-IsHeap

remove_timer_lem_example : Ends (Removed 1 single) (remove_timer 1 single)
remove_timer_lem_example = remove_timer_lem single 1 single-IsValid

expire_lem_example : Ends (Expired 1 start single) (expire 1 single)
unfolding millisecond_less
expire_lem_example =
    expire_lem single start single-IsValid single-IsHeap single-IsSteady (omega arith) (omega arith)
      refl

check_timeout_lem_example :
    Ends
      (λ (_, t). IsReady t × AllLater (add_millisecond start 35) t)
      (check_timeout (λ _ t. t) 100 (add_millisecond start 35) single)
unfolding add_millisecond
check_timeout_lem_example =
    check_timeout_lem (λ _ t. t) 100 (add_millisecond start 35) single (omega arith)
      (λ _ s r. (r, omega arith)) (omega arith) (single-IsValid, single-IsHeap, single-IsSteady)
