-- ===== src/Timers.antt =====
-- TimerHeap (zbluenet/zbluenet/src/zbluenet/timer_heap.cc, timer.h, base_heap_value.h and
-- timer_id_allocator.h): timers in a binary min-heap by the time they are due. A Timer object is
-- named by its id, which addTimer keeps distinct, so `objects` is the memory they live in, and
-- a pointer in the heap's vector is an id. Entry 0 of the vector is the null pointer. The loops
-- of the heap run on fuel; no fuel left is a fault.
pub mod Order
pub mod Erase
pub mod Insert
pub mod Valid
pub mod Remove
pub mod Add
pub mod Expire
pub mod Check
mod Tests
use zbluenet.Base.{
  ℕ, zero, suc, ◌+◌, ◌-◌, ◌*◌, ◌/◌, ◌%◌, ◌^◌, Bool, true, false, not, ◌&&◌, Outcome, done, fault,
  ◌>>=◌, List, [], ◌∷◌, ◌++◌, length, take, get_or, set, swap_entries, leb, ltb, ◌==◌,
  if◌then◌else◌,
}
use zbluenet.Base.Int.{ℤ, pos, negsuc}
use zbluenet.Time.{Timestamp, add_millisecond, less, millisecond_less, distance_millisecond}

pub record Timer : Type 0 where
  pub heap_pos : ℤ
  pub value : Timestamp
  pub timeout_millisec : ℕ
  pub call_times : ℤ

-- TimerHeap::Impl. `timer_map` tells the ids that are keys of timer_map_.
pub record Impl : Type 0 where
  pub timer_id : ℕ
  pub timer_map : ℕ → Bool
  pub objects : ℕ → Timer
  pub timer_min_heap : List ℕ

-- TimerIdAllocator::nextId: the 64-bit counter turns negative from 2^63 on.
unfoldable pub next_id : ℕ → ℕ
next_id timer_id = let next = (timer_id + 1) % 2 ^ 64 in if leb (2 ^ 63) next then 0 else next

-- Memory no timer was made in yet reads as this one.
abbrev pub no_timer : Timer
no_timer = record {
  heap_pos = negsuc 0;
  value = record { second = 0; nanosecond = 0 };
  timeout_millisec = 0;
  call_times = negsuc 0;
}

unfoldable pub new : Impl
new = record {
  timer_id = 0;
  timer_map = λ _. false;
  objects = λ _. no_timer;
  timer_min_heap = 0 ∷ [];
}

abbrev pub update {ℓ} : {A : Type ℓ} → (ℕ → A) → ℕ → A → ℕ → A
update f id a j = if id == j then a else f j

abbrev pub size : Impl → ℕ
size s = length s.timer_min_heap

abbrev pub slot : Impl → ℕ → ℕ
slot s i = get_or s.timer_min_heap i 0

-- `timer_min_heap_[i]->getValue()`.
abbrev pub due : Impl → ℕ → Timestamp
due s i = (s.objects (slot s i)).value

unfoldable pub set_heap_pos : ℕ → ℤ → (ℕ → Timer) → ℕ → Timer
set_heap_pos id heap_pos objects = update objects id (record (objects id) { heap_pos = heap_pos })

-- The three statements that exchange two timers and their positions.
unfoldable pub swap_timers : Impl → ℕ → ℕ → Impl
swap_timers s i j = record s {
  objects = set_heap_pos (slot s j) (pos i) (set_heap_pos (slot s i) (pos j) s.objects);
  timer_min_heap = swap_entries s.timer_min_heap i j 0;
}

unfoldable pub sift_up : ℕ → Impl → ℕ → Outcome Impl
unfolding swap_timers
sift_up zero s cur_index = fault
sift_up (suc k) s cur_index =
    let parent_index = cur_index / 2 in
    let rest = sift_up k (swap_timers s parent_index cur_index) parent_index in
    if parent_index == 0
    then done s
    else if less (due s parent_index) (due s cur_index)
    then done s
    else rest

-- The vector with the timer at its end.
unfoldable pub append_timer : ℕ → Impl → Impl
append_timer id s = record s {
  objects = set_heap_pos id (pos (size s)) s.objects;
  timer_min_heap = s.timer_min_heap ++ id ∷ [];
}

unfoldable pub min_heap_insert : ℕ → Impl → Outcome Impl
unfolding sift_up append_timer
min_heap_insert id s = sift_up (size s + 1) (append_timer id s) (size s)

unfoldable pub smaller_child : Impl → ℕ → ℕ
smaller_child s cur_index =
    let child_index = cur_index * 2 in
    if ltb (child_index + 1) (size s) && less (due s (child_index + 1)) (due s child_index)
    then child_index + 1
    else child_index

unfoldable pub sift_down : ℕ → Impl → ℕ → Outcome Impl
unfolding smaller_child swap_timers
sift_down zero s cur_index = fault
sift_down (suc k) s cur_index =
    let child_index = smaller_child s cur_index in
    let rest = sift_down k (swap_timers s cur_index child_index) child_index in
    if leb (size s) (cur_index * 2)
    then done s
    else if less (due s cur_index) (due s child_index)
    then done s
    else rest

-- The vector with its last timer moved into the place of another.
unfoldable pub replace_timer : ℕ → ℕ → Impl → Impl
replace_timer id cur_index s =
    let last = slot s (size s - 1) in
    record s {
      objects = set_heap_pos last (pos cur_index) (set_heap_pos id (negsuc 0) s.objects);
      timer_min_heap = take (size s - 1) (set s.timer_min_heap cur_index last);
    }

unfoldable pub erase_at : ℕ → ℤ → Impl → Outcome Impl
unfolding sift_down replace_timer
erase_at id (negsuc _) s = done s
erase_at id (pos cur_index) s = sift_down (size s) (replace_timer id cur_index s) cur_index

unfoldable pub min_heap_erase : ℕ → Impl → Outcome Impl
unfolding erase_at
min_heap_erase id s = erase_at id (s.objects id).heap_pos s

-- `minHeapTop`, with 0 for the null pointer.
unfoldable pub min_heap_top : Impl → ℕ
min_heap_top s = if leb (size s) 1 then 0 else slot s 1

abbrev pub at_least_zero : ℤ → ℕ
at_least_zero (pos n) = n
at_least_zero (negsuc _) = 0

-- The timer in the memory and in the map, its heap position still -1.
unfoldable pub make_timer : ℕ → Timestamp → ℕ → ℤ → Impl → Impl
make_timer id now timeout_ms call_times s = record s {
  timer_map = update s.timer_map id true;
  objects = update s.objects id (record {
    heap_pos = negsuc 0;
    value = add_millisecond now timeout_ms;
    timeout_millisec = timeout_ms;
    call_times = call_times;
  });
}

unfoldable pub add_timer : Timestamp → ℤ → ℤ → Impl → Outcome (ℤ × Impl)
unfolding next_id make_timer min_heap_insert
add_timer now timeout_ms call_times s =
    let id = next_id s.timer_id in
    let counted = record s { timer_id = id } in
    let made = make_timer id now (at_least_zero timeout_ms) call_times counted in
    if s.timer_map id
    then done (negsuc 0, counted)
    else min_heap_insert id made >>= λ t. done (pos id, t)

unfoldable pub forget_timer : ℕ → Impl → Impl
forget_timer id s = record s { timer_map = update s.timer_map id false }

unfoldable pub remove_timer : ℕ → Impl → Outcome Impl
unfolding min_heap_erase forget_timer
remove_timer id s =
    if s.timer_map id then (min_heap_erase id s >>= λ t. done (forget_timer id t)) else done s

unfoldable pub dec_call_times : ℤ → ℤ
dec_call_times (pos (suc n)) = pos n
dec_call_times call_times = call_times

unfoldable pub is_one : ℤ → Bool
is_one (pos n) = n == 1
is_one (negsuc _) = false

-- The timer with its next call counted off and put off by its timeout.
unfoldable pub renew_timer : ℕ → Impl → Impl
unfolding dec_call_times
renew_timer id s =
    let timer = s.objects id in
    record s {
      objects = update s.objects id (record timer {
        call_times = dec_call_times timer.call_times;
        value = add_millisecond timer.value timer.timeout_millisec;
      });
    }

-- One round of checkTimeout's loop for the timer that is due, up to the call of its callback.
unfoldable pub expire : ℕ → Impl → Outcome Impl
unfolding min_heap_erase min_heap_insert forget_timer renew_timer is_one
expire id s = min_heap_erase id s >>= λ t.
    if is_one (t.objects id).call_times
    then done (forget_timer id t)
    else min_heap_insert id (renew_timer id t)

-- `checkTimeout`; `callback id` is what the timer's callback does to the heap. The result also
-- tells the timers whose callbacks were called, in order.
module _ (callback : ℕ → Impl → Impl) where
  unfoldable pub check_timeout : ℕ → Timestamp → Impl → Outcome (List ℕ × Impl)
  unfolding min_heap_top expire
  check_timeout zero now s = fault
  check_timeout (suc k) now s =
      let id = min_heap_top s in
      let rest = expire id s >>= λ t.
      check_timeout k now (callback id t) >>= λ (called, u). done (id ∷ called, u) in
      if id == 0
      then done ([], s)
      else if millisecond_less now (due s 1)
      then done ([], s)
      else rest

unfoldable pub get_next_timeout_millisecond : Timestamp → Impl → ℤ
unfolding min_heap_top
get_next_timeout_millisecond now s =
    let timer = min_heap_top s in
    let value = (s.objects timer).value in
    if timer == 0
    then negsuc 0
    else if less value now
    then negsuc 0
    else pos (distance_millisecond now value)
