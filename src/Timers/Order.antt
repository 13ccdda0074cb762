-- ===== src/Timers/Order.antt =====
-- The heap's vector: its links to the timers and back, its order, and what an exchange of two
-- timers does to them.
pub mod Up
pub mod Down
use zbluenet.Base.{
  ℕ, zero, suc, ◌+◌, ◌-◌, ◌*◌, ◌/◌, ◌≤◌, ◌<◌, ◌≡◌, refl, ◌∙◌, List, Bool, true, false, arith, total,
  get_or, get_or-swap, total-swap, length-swap, ltb, ◌==◌, if◌then◌else◌,
}
use zbluenet.Base.Int.{ℤ, pos}
use zbluenet.Time.{less}
use zbluenet.Time.Laws.{nanos, IsNormal, less_lem}
use zbluenet.Timers.{Timer, Impl, size, slot, due, set_heap_pos, swap_timers}

abbrev pub key : Impl → ℕ → ℕ
key s i = nanos (due s i)

-- Every entry of the vector but the null pointer names a timer that knows its place.
pub record IsLinked (s : Impl) : Type 0 where
  pub root : 0 < size s
  pub null : slot s 0 ≡ 0
  pub linked : (i : ℕ) → 0 < i → i < size s → (s.objects (slot s i)).heap_pos ≡ pos i
  pub normal : (id : ℕ) → IsNormal (s.objects id).value

-- No timer is due before its parent in the tree.
abbrev pub IsHeap : Impl → Type 0
IsHeap s = (c : ℕ) → 1 < c → c < size s → key s (c / 2) ≤ key s c

-- The allocator, the map and the timers are the same but for the timers' places in the vector.
pub record Kept (s t : Impl) : Type 0 where
  pub counter : t.timer_id ≡ s.timer_id
  pub keys : t.timer_map ≡ s.timer_map
  pub value : (id : ℕ) → (t.objects id).value ≡ (s.objects id).value
  pub timeout : (id : ℕ) → (t.objects id).timeout_millisec ≡ (s.objects id).timeout_millisec
  pub calls : (id : ℕ) → (t.objects id).call_times ≡ (s.objects id).call_times

pub Kept-refl : (s : Impl) → Kept s s
Kept-refl s = record {
  counter = refl;
  keys = refl;
  value = λ _. refl;
  timeout = λ _. refl;
  calls = λ _. refl;
}

pub Kept-trans : {s t u : Impl} → Kept s t → Kept t u → Kept s u
Kept-trans k l = record {
  counter = l.counter ∙ k.counter;
  keys = l.keys ∙ k.keys;
  value = λ id. l.value id ∙ k.value id;
  timeout = λ id. l.timeout id ∙ k.timeout id;
  calls = λ id. l.calls id ∙ k.calls id;
}

-- The vector has the same entries, in some order.
abbrev pub HasEntries : Impl → Impl → Type 0
HasEntries s t = (f : ℕ → ℕ) → total f t.timer_min_heap ≡ total f s.timer_min_heap

pub less-key :
    (s : Impl) (i j : ℕ) → IsLinked s → less (due s i) (due s j) ≡ ltb (key s i) (key s j)
less-key s i j v = less_lem (due s i) (due s j) (v.normal (slot s i)) (v.normal (slot s j))

-- Setting a place leaves the rest of a timer.
pub set_heap_pos_lem :
    (o : ℕ → Timer) (id j : ℕ) (p : ℤ)
    → ((set_heap_pos id p o j).heap_pos ≡ (if id == j then p else (o j).heap_pos))
      × ((set_heap_pos id p o j).value ≡ (o j).value)
      × ((set_heap_pos id p o j).timeout_millisec ≡ (o j).timeout_millisec)
      × ((set_heap_pos id p o j).call_times ≡ (o j).call_times)
unfolding set_heap_pos
set_heap_pos_lem o id j p = ground arith

module _ (s : Impl) (i j : ℕ) (hi : i < size s) (hj : j < size s) where
  pub size-swap : size (swap_timers s i j) ≡ size s
  unfolding swap_timers
  size-swap = length-swap s.timer_min_heap i j 0

  pub slot-swap :
      (c : ℕ)
      → slot (swap_timers s i j) c
        ≡ (if j == c then slot s i else if i == c then slot s j else slot s c)
  unfolding swap_timers
  slot-swap c = get_or-swap s.timer_min_heap i j 0 hi hj c

  pub swap-Kept : Kept s (swap_timers s i j)
  unfolding swap_timers
  swap-Kept =
      let first = λ (id : ℕ). set_heap_pos_lem s.objects (slot s i) id (pos j) in
      let second = λ (id : ℕ).
        set_heap_pos_lem (set_heap_pos (slot s i) (pos j) s.objects) (slot s j) id (pos i) in
      record {
        counter = refl;
        keys = refl;
        value = λ id. (second id).1 ∙ (first id).1;
        timeout = λ id. (second id).2 ∙ (first id).2;
        calls = λ id. (second id).3 ∙ (first id).3;
      }

  pub swap-entries : HasEntries s (swap_timers s i j)
  unfolding swap_timers
  swap-entries f = total-swap s.timer_min_heap i j 0 hi hj f

  pub key-swap :
      (c : ℕ)
      → key (swap_timers s i j) c
        ≡ (if j == c then key s i else if i == c then key s j else key s c)
  key-swap c = let k = swap-Kept.value (slot (swap_timers s i j) c) in grind (arith, slot-swap c, k)

  place-swap :
      (id : ℕ)
      → ((swap_timers s i j).objects id).heap_pos ≡ (
          if slot s j == id
          then pos i
          else if slot s i == id
          then pos j
          else (s.objects id).heap_pos)
  unfolding swap_timers
  place-swap id =
      let (first, _, _, _) = set_heap_pos_lem s.objects (slot s i) id (pos j) in
      let (second, _, _, _) =
        set_heap_pos_lem (set_heap_pos (slot s i) (pos j) s.objects) (slot s j) id (pos i) in
      ground (arith, first, second)

  pub swap-IsLinked : IsLinked s → 0 < i → 0 < j → IsLinked (swap_timers s i j)
  swap-IsLinked v pi pj = record {
    root = omega (arith, size-swap, v.root);
    null = grind (arith, slot-swap 0, v.null);
    linked = λ c p q. grind (
      arith,
      slot-swap c,
      size-swap,
      place-swap (slot (swap_timers s i j) c),
      v.linked i pi hi,
      v.linked j pj hj,
      v.linked c,
    );
    normal = λ id. rw (swap-Kept.value id) (v.normal id);
  }
