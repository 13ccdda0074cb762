-- ===== src/Timers/Check.antt =====
-- checkTimeout and getNextTimeoutMillisecond.
use zbluenet.Base.{
  ℕ, zero, suc, ◌-◌, ◌/◌, ◌≤◌, ◌<◌, ◌≡◌, subst, arith, true, false, ◌==◌, Ends, ends, Ends-bind,
  Ends-if,
}
use zbluenet.Base.Int.{pos}
use zbluenet.Time.{Timestamp, less, millisecond_less}
use zbluenet.Time.Laws.{
  nanos, millis, IsNormal, less_lem, millisecond_less_lem, distance_millisecond_lem,
}
use zbluenet.Timers.{
  Impl, size, slot, due, min_heap_top, check_timeout, get_next_timeout_millisecond,
}
use zbluenet.Timers.Order.{IsHeap, key}
use zbluenet.Timers.Valid.{IsValid, slot-held, held-positive, held-slot}
use zbluenet.Timers.Expire.{IsSteady, lateness, expire_lem}

root_least_below :
    (k : ℕ) (s : Impl) (i : ℕ) → IsHeap s → i < k → 0 < i → i < size s → key s 1 ≤ key s i
root_least_below zero s i o f p h = absurd (omega arith)
root_least_below (suc k) s i o f p h = ground (arith, o i, root_least_below k s (i / 2) o)

-- The timer on top is due first.
pub root_least : (s : Impl) (i : ℕ) → IsHeap s → 0 < i → i < size s → key s 1 ≤ key s i
root_least s i o p h = root_least_below (suc i) s i o (omega arith) p h

pub top_least :
    (s : Impl) (id : ℕ)
    → IsValid s
    → IsHeap s
    → s.timer_map id ≡ true
    → (1 < size s) × (key s 1 ≤ nanos (s.objects id).value)
top_least s id v o e =
    let (i, p, h, same) = held-slot s.timer_map s v.holding id e in
    (omega arith, subst (λ j. key s 1 ≤ nanos (s.objects j).value) same (root_least s i o p h))

-- What holds whenever checkTimeout looks for the next timer.
abbrev pub IsReady : Impl → Type 0
IsReady s = IsValid s × IsHeap s × IsSteady s

abbrev pub IsTame : Timestamp → (ℕ → Impl → Impl) → Type 0
IsTame now callback =
    (id : ℕ) (s : Impl)
    → IsReady s
    → IsReady (callback id s) × (lateness now (callback id s) ≤ lateness now s)

abbrev pub AllLater : Timestamp → Impl → Type 0
AllLater now s = (id : ℕ) → s.timer_map id ≡ true → millisecond_less now (s.objects id).value ≡ true

empty-AllLater : (s : Impl) (now : Timestamp) → IsReady s → min_heap_top s ≡ 0 → AllLater now s
unfolding min_heap_top
empty-AllLater s now (v, o, _) e id live =
    let (full, _) = top_least s id v o live in
    let top =
      held-positive s.timer_map s v.holding (slot s 1)
        (slot-held s.timer_map s v.holding 1 (omega arith) full) in
    absurd (ground arith)

-- A timer on top is in place 1.
top-slot : (s : Impl) → min_heap_top s == 0 ≡ false → (min_heap_top s ≡ slot s 1) × (1 < size s)
unfolding min_heap_top
top-slot s e = ground arith

later-AllLater :
    (s : Impl) (now : Timestamp)
    → IsReady s
    → IsNormal now
    → millisecond_less now (due s 1) ≡ true
    → AllLater now s
later-AllLater s now (v, o, _) n later id live =
    let (_, least) = top_least s id v o live in
    let normal = v.holding.linked.normal in
    ground (
      arith,
      millisecond_less_lem now (due s 1) n (normal (slot s 1)),
      millisecond_less_lem now (s.objects id).value n (normal id),
    )

-- checkTimeout ends, with the heap valid and in order and no timer due any more, when every timer
-- that is called again has a timeout of a millisecond at least and the callbacks keep to that and
-- do not make the lateness larger; the lateness of the timers is fuel enough.
pub check_timeout_lem :
    (callback : ℕ → Impl → Impl) (k : ℕ) (now : Timestamp) (s : Impl)
    → IsNormal now
    → IsTame now callback
    → lateness now s < k
    → IsReady s
    → Ends (λ (_, t). IsReady t × AllLater now t) (check_timeout callback k now s)
unfolding check_timeout
check_timeout_lem callback zero now s n tame f r = absurd (omega arith)
check_timeout_lem callback (suc k) now s n tame f r =
    Ends-if (min_heap_top s == 0) (λ e. ends (r, empty-AllLater s now r (ground arith)))
      λ e.
        Ends-if (millisecond_less now (due s 1)) (λ later. ends (r, later-AllLater s now r n later))
          λ ripe.
            let (v, o, steady) = r in
            let (top, full) = top-slot s e in
            rw top (
              Ends-bind (expire_lem s now v o steady n full ripe) λ t x.
                let (r', less_late) = tame (slot s 1) t (x.valid, x.order, x.steady) in
                Ends-bind
                  (check_timeout_lem callback k now (callback (slot s 1) t) n tame
                    (omega (arith, x.less_late)) r')
                  λ (called, u) done. ends done)

-- On a valid heap in order that has timers, none of them past, getNextTimeoutMillisecond gives the
-- milliseconds to the timer that is due first.
get_next_timeout_millisecond_lem :
    (now : Timestamp) (s : Impl) (some_id : ℕ)
    → IsNormal now
    → IsValid s
    → IsHeap s
    → s.timer_map some_id ≡ true
    → ((id : ℕ) → s.timer_map id ≡ true → less (s.objects id).value now ≡ false)
    → (id : ℕ) × (s.timer_map id ≡ true)
      × (get_next_timeout_millisecond now s ≡ pos (millis (s.objects id).value - millis now))
      × ((j : ℕ) → s.timer_map j ≡ true → nanos (s.objects id).value ≤ nanos (s.objects j).value)
unfolding get_next_timeout_millisecond min_heap_top
get_next_timeout_millisecond_lem now s some_id n v o live later =
    let (full, _) = top_least s some_id v o live in
    let held = slot-held s.timer_map s v.holding 1 (omega arith) full in
    let positive = held-positive s.timer_map s v.holding (slot s 1) held in
    let distance = distance_millisecond_lem now (due s 1) n (v.holding.linked.normal (slot s 1)) in
    let order = less_lem (due s 1) now (v.holding.linked.normal (slot s 1)) n in
    (
      slot s 1,
      held,
      ground (arith, later (slot s 1) held, distance, order),
      λ j l. (top_least s j v o l).1,
    )
