-- ===== src/Timers/Erase.antt =====
-- minHeapErase, on a timer that is in the vector.
use zbluenet.Base.{
  ℕ, ◌+◌, ◌-◌, ◌/◌, ◌≤◌, ◌<◌, ◌≡◌, refl, sym, ◌∙◌, ◌⊎◌, arith, Ends, Ends-map, ◌==◌, if◌then◌else◌,
  get_or, set, total, get_or-set, get_or-take, length-set, length-take, total-set, total-take,
}
use zbluenet.Base.Int.{pos, negsuc}
use zbluenet.Timers.{Impl, size, slot, set_heap_pos, replace_timer, erase_at, min_heap_erase}
use zbluenet.Timers.Order.{IsLinked, IsHeap, Kept, Kept-trans, key, set_heap_pos_lem}
use zbluenet.Timers.Order.Down.{DownInv, sift_down_lem}

module _ (s : Impl) (id i : ℕ) (l : IsLinked s) (p : 0 < i) (h : i < size s)
    (e : slot s i ≡ id) where
  abbrev replaced : Impl
  replaced = replace_timer id i s

  size-replace : size replaced ≡ size s - 1
  unfolding replace_timer
  size-replace = omega (
    arith,
    length-take (size s - 1) (set s.timer_min_heap i (slot s (size s - 1))),
    length-set s.timer_min_heap i (slot s (size s - 1)),
  )

  slot-replace :
      (c : ℕ)
      → c < size s - 1
      → slot replaced c ≡ (if i == c then slot s (size s - 1) else slot s c)
  unfolding replace_timer
  slot-replace c q =
      get_or-take (size s - 1) (set s.timer_min_heap i (slot s (size s - 1))) c 0 q
      ∙ get_or-set s.timer_min_heap i c (slot s (size s - 1)) 0 h

  place-replace :
      (j : ℕ)
      → (replaced.objects j).heap_pos ≡ (
          if slot s (size s - 1) == j
          then pos i
          else if id == j
          then negsuc 0
          else (s.objects j).heap_pos)
  unfolding replace_timer
  place-replace j =
      let (first, _, _, _) = set_heap_pos_lem s.objects id j (negsuc 0) in
      let (second, _, _, _) =
        set_heap_pos_lem (set_heap_pos id (negsuc 0) s.objects) (slot s (size s - 1)) j (pos i) in
      ground (arith, first, second)

  replace-Kept : Kept s replaced
  unfolding replace_timer
  replace-Kept =
      let first = λ (j : ℕ). set_heap_pos_lem s.objects id j (negsuc 0) in
      let second = λ (j : ℕ).
        set_heap_pos_lem (set_heap_pos id (negsuc 0) s.objects) (slot s (size s - 1)) j (pos i) in
      record {
        counter = refl;
        keys = refl;
        value = λ j. (second j).1 ∙ (first j).1;
        timeout = λ j. (second j).2 ∙ (first j).2;
        calls = λ j. (second j).3 ∙ (first j).3;
      }

  key-replace :
      (c : ℕ) → c < size s - 1 → key replaced c ≡ (if i == c then key s (size s - 1) else key s c)
  key-replace c q =
      let k = replace-Kept.value (slot replaced c) in grind (arith, slot-replace c q, k)

  entries-replace : (f : ℕ → ℕ) → total f replaced.timer_min_heap + f id ≡ total f s.timer_min_heap
  unfolding replace_timer
  entries-replace f =
      let last = slot s (size s - 1) in
      let n = length-set s.timer_min_heap i last in
      let first = total-set f s.timer_min_heap i last 0 h in
      let second = total-take f (size s - 1) (set s.timer_min_heap i last) 0 (omega (arith, n)) in
      let kept : get_or (set s.timer_min_heap i last) (size s - 1) 0 ≡ last =
        ground (arith, get_or-set s.timer_min_heap i (size s - 1) last 0 h) in
      let third = rw kept at second in let fourth = rw e at first in omega (arith, third, fourth)

  replace-IsLinked : IsLinked replaced
  replace-IsLinked = record {
    root = omega (arith, size-replace);
    null = ground (arith, slot-replace 0, l.null);
    linked = λ c q r. grind (
      arith,
      slot-replace c,
      size-replace,
      place-replace (slot replaced c),
      l.linked i p h,
      l.linked (size s - 1),
      l.linked c,
    );
    normal = λ j. rw (replace-Kept.value j) (l.normal j);
  }

  replace-DownInv : IsHeap s → (i ≡ 1) ⊎ (key s (i / 2) ≤ key s (size s - 1)) → DownInv replaced i
  replace-DownInv o late = record {
    positive = p;
    edges = λ c q r n. ground (arith, size-replace, key-replace c, key-replace (c / 2), o c, late);
    bridged = λ c q r n. ground (arith, size-replace, key-replace c, key-replace (i / 2), o c, o i);
  }

-- The vector without the timer; the order is kept if the timer that takes its place is not due
-- before the timer above that place.
pub record Erased (id : ℕ) (s t : Impl) : Type 0 where
  pub linked : IsLinked t
  pub kept : Kept s t
  pub entries : (f : ℕ → ℕ) → total f t.timer_min_heap + f id ≡ total f s.timer_min_heap
  pub order :
      (i : ℕ)
      → (s.objects id).heap_pos ≡ pos i
      → IsHeap s
      → (i ≡ 1) ⊎ (key s (i / 2) ≤ key s (size s - 1))
      → IsHeap t

pos-inj : {m n : ℕ} → pos m ≡ pos n → m ≡ n
pos-inj e = cc

pub min_heap_erase_lem :
    (s : Impl) (id i : ℕ)
    → IsLinked s
    → 0 < i
    → i < size s
    → slot s i ≡ id
    → Ends (Erased id s) (min_heap_erase id s)
unfolding min_heap_erase erase_at
min_heap_erase_lem s id i l p h e =
    let place : (s.objects id).heap_pos ≡ pos i = rw e at (l.linked i p h) in
    let l' = replace-IsLinked s id i l p h e in
    let n = size-replace s id i l p h e in
    rw place (
      Ends-map
        (sift_down_lem (size s) (replaced s id i l p h e) i (omega (arith, n)) (omega arith) p l')
        λ t r. record {
          linked = r.linked;
          kept = Kept-trans (replace-Kept s id i l p h e) r.kept;
          entries = λ f. omega (arith, r.entries f, entries-replace s id i l p h e f);
          order = λ j q o late.
              let same : j ≡ i = pos-inj (sym q ∙ place) in
              r.order (replace-DownInv s id i l p h e o (rw same at late));
        })
