-- ===== src/Timers/Insert.antt =====
-- minHeapInsert, on a timer that is not in the vector.
use zbluenet.Base.{
  ℕ, ◌+◌, ◌/◌, ◌<◌, ◌≡◌, ◌≢◌, refl, [], ◌∷◌, arith, Ends, Ends-map, ◌==◌, if◌then◌else◌, total,
  get_or-append, get_or-last, length-append, total-append,
}
use zbluenet.Base.Int.{pos}
use zbluenet.Timers.{Impl, size, slot, append_timer, min_heap_insert}
use zbluenet.Timers.Order.{IsLinked, IsHeap, Kept, Kept-trans, key, set_heap_pos_lem}
use zbluenet.Timers.Order.Up.{UpInv, sift_up_lem}

abbrev pub IsAbsent : Impl → ℕ → Type 0
IsAbsent s id = (i : ℕ) → 0 < i → i < size s → slot s i ≢ id

module _ (s : Impl) (id : ℕ) where
  abbrev appended : Impl
  appended = append_timer id s

  size-append : size appended ≡ size s + 1
  unfolding append_timer
  size-append = length-append s.timer_min_heap (id ∷ [])

  slot-append : (c : ℕ) → c < size s → slot appended c ≡ slot s c
  unfolding append_timer
  slot-append c q = get_or-append s.timer_min_heap (id ∷ []) c 0 q

  slot-append_last : slot appended (size s) ≡ id
  unfolding append_timer
  slot-append_last = get_or-last s.timer_min_heap id 0

  place-append :
      (j : ℕ)
      → (appended.objects j).heap_pos ≡ (if id == j then pos (size s) else (s.objects j).heap_pos)
  unfolding append_timer
  place-append j = (set_heap_pos_lem s.objects id j (pos (size s))).0

  append-Kept : Kept s appended
  unfolding append_timer
  append-Kept =
      let at = λ (j : ℕ). set_heap_pos_lem s.objects id j (pos (size s)) in
      record {
        counter = refl;
        keys = refl;
        value = λ j. (at j).1;
        timeout = λ j. (at j).2;
        calls = λ j. (at j).3;
      }

  entries-append : (f : ℕ → ℕ) → total f appended.timer_min_heap ≡ total f s.timer_min_heap + f id
  unfolding append_timer
  entries-append f = omega (arith, total-append f s.timer_min_heap (id ∷ []))

  key-append : (c : ℕ) → c < size s → key appended c ≡ key s c
  key-append c q = let k = append-Kept.value (slot appended c) in grind (arith, slot-append c q, k)

  append-IsLinked : IsLinked s → IsAbsent s id → IsLinked appended
  append-IsLinked l a = record {
    root = omega (arith, size-append);
    null = ground (arith, slot-append 0, l.null, l.root);
    linked = λ c q r. grind (
      arith,
      slot-append c,
      slot-append_last,
      size-append,
      place-append (slot appended c),
      l.linked c,
      a c,
    );
    normal = λ j. rw (append-Kept.value j) (l.normal j);
  }

  append-UpInv : IsLinked s → IsHeap s → UpInv appended (size s)
  append-UpInv l o = record {
    positive = l.root;
    inside = omega (arith, size-append);
    edges = λ c q r n. ground (arith, size-append, key-append c, key-append (c / 2), o c);
    bridged = λ c q r n. ground (arith, size-append);
  }

-- The vector with the timer, in order again.
pub record Inserted (id : ℕ) (s t : Impl) : Type 0 where
  pub linked : IsLinked t
  pub kept : Kept s t
  pub entries : (f : ℕ → ℕ) → total f t.timer_min_heap ≡ total f s.timer_min_heap + f id
  pub order : IsHeap s → IsHeap t

pub min_heap_insert_lem :
    (s : Impl) (id : ℕ) → IsLinked s → IsAbsent s id → Ends (Inserted id s) (min_heap_insert id s)
unfolding min_heap_insert
min_heap_insert_lem s id l a =
    let l' = append-IsLinked s id l a in
    let n = size-append s id in
    Ends-map
      (sift_up_lem (size s + 1) (appended s id) (size s) (omega arith) l.root (omega (arith, n)) l')
      λ t r. record {
        linked = r.linked;
        kept = Kept-trans (append-Kept s id) r.kept;
        entries = λ f. omega (arith, r.entries f, entries-append s id f);
        order = λ o. r.order (append-UpInv s id l o);
      }
