-- ===== src/Timers/Valid.antt =====
-- Which timers are in the vector, each once, and what inserting and erasing one does to that.
use zbluenet.Base.{
  ℕ, ◌<◌, ◌≡◌, ◌≢◌, refl, arith, Bool, true, false, count, ◌==◌, if◌then◌else◌, get_or_le-total,
  get_or_twice_le-total, count-get_or, List, get_or, length, Option, none, some, Ends, Ends-map,
}
use zbluenet.Base.Int.{ℤ}
use zbluenet.Time.{Timestamp}
use zbluenet.Timers.{Impl, new, size, slot, update, min_heap_insert, min_heap_erase}
use zbluenet.Timers.Order.{IsLinked, IsHeap, Kept}
use zbluenet.Timers.Insert.{IsAbsent, Inserted, min_heap_insert_lem}
use zbluenet.Timers.Erase.{Erased, min_heap_erase_lem}

-- The vector is linked and has the null pointer, and the timers of `held`, once each.
pub record IsHolding (held : ℕ → Bool) (s : Impl) : Type 0 where
  pub linked : IsLinked s
  pub counts : (id : ℕ) → id ≢ 0 → count id s.timer_min_heap ≡ (if held id then 1 else 0)
  pub null_once : count 0 s.timer_min_heap ≡ 1
  pub no_null : held 0 ≡ false

-- Between the operations the timers of the map are those of the vector.
pub record IsValid (s : Impl) : Type 0 where
  pub holding : IsHolding s.timer_map s
  pub fresh : (id : ℕ) → s.timer_id < id → s.timer_map id ≡ false

-- What a client can tell of the timer with an id: when it is due, its timeout and its calls.
abbrev pub view : Impl → ℕ → Option (Timestamp × ℕ × ℤ)
view s id =
    if s.timer_map id
    then some ((s.objects id).value, (s.objects id).timeout_millisec, (s.objects id).call_times)
    else none

pub Kept-view : {s t : Impl} → Kept s t → (id : ℕ) → view t id ≡ view s id
Kept-view k id = rw (k.keys, k.value id, k.timeout id, k.calls id)

at_least_one : (a : List ℕ) (i : ℕ) → i < length a → 0 < count (get_or a i 0) a
at_least_one a i h =
    ground (arith, get_or_le-total (λ x. if x == get_or a i 0 then 1 else 0) a i 0 h)

module _ (held : ℕ → Bool) (s : Impl) (v : IsHolding held s) where
  -- The null pointer is in place 0 only.
  slot-positive : (i : ℕ) → 0 < i → i < size s → slot s i ≢ 0
  slot-positive i p h e =
      let twice = get_or_twice_le-total (λ x. if x == 0 then 1 else 0) s.timer_min_heap 0 i 0 p h in
      ground (arith, twice, v.null_once, v.linked.null, e)

  pub slot-held : (i : ℕ) → 0 < i → i < size s → held (slot s i) ≡ true
  slot-held i p h =
      ground (arith, at_least_one s.timer_min_heap i h, v.counts (slot s i) (slot-positive i p h))

  pub held-positive : (id : ℕ) → held id ≡ true → id ≢ 0
  held-positive id e z = grind (arith, v.no_null)

  pub held-slot : (id : ℕ) → held id ≡ true → (i : ℕ) × (0 < i) × (i < size s) × (slot s i ≡ id)
  held-slot id e =
      let one = v.counts id (held-positive id e) in
      let (i, h, same) = count-get_or id s.timer_min_heap (ground (arith, one)) in
      let positive : 0 < i = grind (arith, v.linked.null, held-positive id e) in
      (i, positive, h, same)

  unheld-IsAbsent : (id : ℕ) → held id ≡ false → IsAbsent s id
  unheld-IsAbsent id e i p h same = grind (arith, slot-held i p h)

  pub insert-IsHolding :
      (id : ℕ)
      → id ≢ 0
      → held id ≡ false
      → Ends (λ t. IsHolding (update held id true) t × Inserted id s t) (min_heap_insert id s)
  insert-IsHolding id n e =
      Ends-map (min_heap_insert_lem s id v.linked (unheld-IsAbsent id e)) λ t r. (
        record {
          linked = r.linked;
          counts = λ j m. grind (arith, r.entries (λ x. if x == j then 1 else 0), v.counts j m);
          null_once = ground (arith, r.entries (λ x. if x == 0 then 1 else 0), v.null_once);
          no_null = ground (arith, v.no_null);
        },
        r,
      )

  pub erase-IsHolding :
      (id : ℕ)
      → held id ≡ true
      → Ends (λ t. IsHolding (update held id false) t × Erased id s t) (min_heap_erase id s)
  erase-IsHolding id e =
      let n = held-positive id e in
      let (i, p, h, same) = held-slot id e in
      Ends-map (min_heap_erase_lem s id i v.linked p h same) λ t r. (
        record {
          linked = r.linked;
          counts = λ j m. grind (arith, r.entries (λ x. if x == j then 1 else 0), v.counts j m);
          null_once = ground (arith, r.entries (λ x. if x == 0 then 1 else 0), v.null_once);
          no_null = ground (arith, v.no_null);
        },
        r,
      )

-- A new TimerHeap has no timers.
pub new-IsValid : IsValid new × IsHeap new × ((id : ℕ) → view new id ≡ none)
unfolding new
new-IsValid = (
  record {
    holding = record {
      linked = record {
        root = omega arith;
        null = refl;
        linked = λ i p h. absurd (omega arith);
        normal = λ id. omega arith;
      };
      counts = λ id n. ground arith;
      null_once = refl;
      no_null = refl;
    };
    fresh = λ id h. refl;
  },
  λ c p h. absurd (omega arith),
  λ id. refl,
)
