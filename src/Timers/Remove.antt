-- ===== src/Timers/Remove.antt =====
-- removeTimer.
use zbluenet.Base.{
  ℕ, ◌-◌, ◌/◌, ◌≤◌, ◌<◌, ◌≡◌, ◌⊎◌, refl, arith, false, ◌==◌, if◌then◌else◌, none, Ends, ends,
  Ends-bind, Ends-if,
}
use zbluenet.Timers.{Impl, size, slot, update, forget_timer, remove_timer}
use zbluenet.Timers.Order.{IsHeap, Kept, key}
use zbluenet.Timers.Valid.{IsHolding, IsValid, view, Kept-view, erase-IsHolding}
use zbluenet.Timers.Erase.{min_heap_erase_lem}

-- Forgetting a timer that the vector no longer has.
pub forget-IsValid :
    (s t : Impl) (id : ℕ)
    → IsValid s
    → Kept s t
    → IsHolding (update s.timer_map id false) t
    → IsValid (forget_timer id t)
unfolding forget_timer
forget-IsValid s t id v k h = record {
  holding = rw k.keys (record {
    linked = record {
      root = h.linked.root;
      null = h.linked.null;
      linked = h.linked.linked;
      normal = h.linked.normal;
    };
    counts = h.counts;
    null_once = h.null_once;
    no_null = h.no_null;
  });
  fresh = λ j q. rw k.keys (ground (arith, v.fresh j (rw k.counter at q)));
}

pub forget-view :
    (s t : Impl) (id j : ℕ)
    → Kept s t
    → view (forget_timer id t) j ≡ (if id == j then none else view s j)
unfolding forget_timer
forget-view s t id j k = ground (arith, Kept-view k j)

-- The map without the timer, and the counter of ids as it was.
abbrev pub Removed : ℕ → Impl → Impl → Type 0
Removed id s t =
    IsValid t
    × ((j : ℕ) → view t j ≡ (if id == j then none else view s j))
    × (t.timer_id ≡ s.timer_id)

-- removeTimer on a valid heap ends, with the heap valid, takes away the timer with the id if there
-- is one, and leaves the other timers and the counter of ids as they are.
pub remove_timer_lem : (s : Impl) (id : ℕ) → IsValid s → Ends (Removed id s) (remove_timer id s)
unfolding remove_timer forget_timer
remove_timer_lem s id v =
    Ends-if (s.timer_map id)
      (λ e. Ends-bind (erase-IsHolding s.timer_map s v.holding id e) λ t (h, r).
        ends (forget-IsValid s t id v r.kept h, λ j. forget-view s t id j r.kept, r.kept.counter))
      λ e. ends (v, λ j. ground arith, refl)

-- removeTimer keeps a valid heap in order if the timer is on top, or if the last timer of the
-- vector, which takes its place, is not due before the timer above that place.
remove_timer-IsHeap :
    (s : Impl) (i : ℕ)
    → IsValid s
    → IsHeap s
    → 0 < i
    → i < size s
    → (i ≡ 1) ⊎ (key s (i / 2) ≤ key s (size s - 1))
    → Ends IsHeap (remove_timer (slot s i) s)
unfolding remove_timer forget_timer
remove_timer-IsHeap s i v o p h late =
    Ends-if (s.timer_map (slot s i))
      (λ e.
        Ends-bind (min_heap_erase_lem s (slot s i) i v.holding.linked p h refl)
          λ t r. ends (r.order i (v.holding.linked.linked i p h) o late))
      λ e. ends o
