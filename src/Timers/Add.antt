-- ===== src/Timers/Add.antt =====
-- addTimer.
use zbluenet.Base.{
  ℕ, ◌+◌, ◌/◌, ◌^◌, ◌<◌, ◌≡◌, refl, arith, true, false, ◌==◌, if◌then◌else◌, some, ap, sym, subst,
  Ends, ends, Ends-bind,
}
use zbluenet.Base.Int.{ℤ, pos}
use zbluenet.Time.{Timestamp, add_millisecond}
use zbluenet.Time.Laws.{nanos, IsNormal, add_millisecond_lem}
use zbluenet.Timers.{
  Timer, Impl, size, slot, update, at_least_zero, next_id, make_timer, add_timer, min_heap_insert,
}
use zbluenet.Timers.Insert.{Inserted}
use zbluenet.Timers.Order.{IsLinked, IsHeap}
use zbluenet.Timers.Valid.{IsHolding, IsValid, view, Kept-view, insert-IsHolding, slot-held}

module _ (s : Impl) (id : ℕ) (now : Timestamp) (ms : ℕ) (calls : ℤ) where
  abbrev made : Impl
  made = make_timer id now ms calls (record s { timer_id = id })

  make-apart :
      IsValid s
      → s.timer_map id ≡ false
      → (i : ℕ) → 0 < i
      → i < size s
      → made.objects (slot s i) ≡ s.objects (slot s i)
  unfolding make_timer
  make-apart v e i p h = grind (arith, slot-held s.timer_map s v.holding i p h)

  make-IsLinked : IsValid s → IsNormal now → s.timer_map id ≡ false → IsLinked made
  unfolding make_timer
  make-IsLinked v n e =
      let l = v.holding.linked in
      record {
        root = l.root;
        null = l.null;
        linked = λ i p h. grind (arith, make-apart v e i p h, l.linked i p h);
        normal = λ j. ground (arith, l.normal j, (add_millisecond_lem now ms n).0);
      }

  make-IsHeap : IsValid s → s.timer_map id ≡ false → IsHeap s → IsHeap made
  unfolding make_timer
  make-IsHeap v e o c p h =
      let below = make-apart v e c (omega arith) h in
      let above = make-apart v e (c / 2) (omega arith) (omega arith) in
      rw (ap (λ (x : Timer). nanos x.value) below, ap (λ (x : Timer). nanos x.value) above)
        (o c p h)

  make-IsHolding : IsValid s → IsNormal now → s.timer_map id ≡ false → IsHolding s.timer_map made
  unfolding make_timer
  make-IsHolding v n e = record {
    linked = make-IsLinked v n e;
    counts = v.holding.counts;
    null_once = v.holding.null_once;
    no_null = v.holding.no_null;
  }

pub next_id_lem : (n : ℕ) → n + 1 < 2 ^ 63 → next_id n ≡ n + 1
unfolding next_id
next_id_lem n h = ground arith

-- A fresh id, the timer under it, and the other timers as they were.
abbrev pub Added : Timestamp → ℕ → ℤ → Impl → ℤ × Impl → Type 0
Added now ms calls s (id, t) =
    (id ≡ pos (s.timer_id + 1))
    × (t.timer_id ≡ s.timer_id + 1)
    × IsValid t
    × ((j : ℕ)
        → view t j
          ≡ (if s.timer_id + 1 == j then some (add_millisecond now ms, ms, calls) else view s j))

module _ (now : Timestamp) (timeout_ms calls : ℤ) (s : Impl) (v : IsValid s) (n : IsNormal now)
    (room : s.timer_id + 1 < 2 ^ 63) where
  abbrev id : ℕ
  id = s.timer_id + 1

  abbrev start : Impl
  start = made s id now (at_least_zero timeout_ms) calls

  free : s.timer_map id ≡ false
  free = v.fresh id (omega arith)

  inserted :
      Ends
        (λ t. IsHolding (update s.timer_map id true) t × Inserted id start t)
        (min_heap_insert id start)
  inserted =
      insert-IsHolding s.timer_map start
        (make-IsHolding s id now (at_least_zero timeout_ms) calls v n free) id (omega arith) free

  -- While the 64-bit counter has ids left, addTimer on a valid heap ends, with the heap valid,
  -- gives the timer an id that no timer has, and leaves the other timers as they are.
  pub add_timer_lem :
      Ends (Added now (at_least_zero timeout_ms) calls s) (add_timer now timeout_ms calls s)
  unfolding add_timer make_timer
  add_timer_lem =
      rw (next_id_lem s.timer_id room, free)
        (Ends-bind inserted λ t (h, r). ends (
          refl,
          r.kept.counter,
          record {
            holding = subst (λ m. IsHolding m t) (sym r.kept.keys) h;
            fresh = λ j q. rw r.kept.keys (ground (arith, v.fresh j, rw r.kept.counter at q));
          },
          λ j. ground (arith, Kept-view r.kept j),
        ))

  -- While the 64-bit counter has ids left, addTimer keeps a valid heap in order.
  pub add_timer-IsHeap : IsHeap s → Ends (λ (_, t). IsHeap t) (add_timer now timeout_ms calls s)
  unfolding add_timer
  add_timer-IsHeap o =
      rw (next_id_lem s.timer_id room, free)
        (Ends-bind inserted λ t (h, r).
          ends (r.order (make-IsHeap s id now (at_least_zero timeout_ms) calls v free o)))
