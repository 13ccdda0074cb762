-- ===== src/Timers/Order/Down.antt =====
-- The loop of minHeapErase restores the order of the heap below a place.
use zbluenet.Base.{
  ℕ, zero, suc, ◌+◌, ◌*◌, ◌/◌, ◌≤◌, ◌<◌, ◌≡◌, ◌≢◌, arith, refl, ◌∙◌, Ends, ends, Ends-if, Ends-map,
  ltb, leb,
}
use zbluenet.Timers.{Impl, size, swap_timers, sift_down, smaller_child}
use zbluenet.Timers.Order.{
  IsLinked, IsHeap, Kept, Kept-refl, Kept-trans, key, less-key, size-swap, key-swap, swap-Kept,
  swap-IsLinked, swap-entries, HasEntries,
}

-- Only the edges below `i` may be out of order.
pub record DownInv (s : Impl) (i : ℕ) : Type 0 where
  pub positive : 0 < i
  pub edges : (c : ℕ) → 1 < c → c < size s → c / 2 ≢ i → key s (c / 2) ≤ key s c
  pub bridged : (c : ℕ) → c < size s → c / 2 ≡ i → 1 < i → key s (i / 2) ≤ key s c

-- The child that `smaller_child` picks.
smaller_child_lem :
    (s : Impl) (i : ℕ)
    → IsLinked s
    → 0 < i
    → i * 2 < size s
    → (smaller_child s i < size s)
      × (i < smaller_child s i)
      × (smaller_child s i / 2 ≡ i)
      × ((c : ℕ) → c < size s → c / 2 ≡ i → key s (smaller_child s i) ≤ key s c)
unfolding smaller_child
smaller_child_lem s i l p h =
    rw (less-key s (i * 2 + 1) (i * 2) l)
      (ground arith, ground arith, ground arith, λ c q r. ground arith)

swap-DownInv :
    (s : Impl) (i j : ℕ)
    → DownInv s i
    → i < size s
    → j < size s
    → i < j
    → j / 2 ≡ i
    → ((c : ℕ) → c < size s → c / 2 ≡ i → key s j ≤ key s c)
    → key s j ≤ key s i
    → DownInv (swap_timers s i j) j
swap-DownInv s i j v hi hj lt e least below =
    let at = key-swap s i j hi hj in
    record {
      positive = omega arith;
      edges = λ c p q r.
          ground (arith, at c, at (c / 2), size-swap s i j hi hj, v.edges c, v.bridged j, least c);
      bridged = λ c p q r. ground (arith, at c, at (j / 2), size-swap s i j hi hj, v.edges c);
    }

-- The loop keeps the links and the timers in any case.
pub record Sunk (s : Impl) (i : ℕ) (t : Impl) : Type 0 where
  pub linked : IsLinked t
  pub kept : Kept s t
  pub entries : HasEntries s t
  pub order : DownInv s i → IsHeap t

pub sift_down_lem :
    (k : ℕ) (s : Impl) (i : ℕ)
    → size s ≤ i + k
    → 0 < k
    → 0 < i
    → IsLinked s
    → Ends (Sunk s i) (sift_down k s i)
unfolding sift_down
sift_down_lem zero s i f g p l = absurd (omega arith)
sift_down_lem (suc k) s i f g p l =
    Ends-if (leb (size s) (i * 2))
      (λ e. ends (record {
        linked = l;
        kept = Kept-refl s;
        entries = λ _. refl;
        order = λ v c q r. ground (arith, v.edges c);
      }))
      λ e.
        let (hj, lt, half, least) = smaller_child_lem s i l p (ground arith) in
        let hi : i < size s = omega (arith, hj, lt) in
        let j = smaller_child s i in
        rw (less-key s i (smaller_child s i) l) (
          Ends-if (ltb (key s i) (key s j))
            (λ above. ends (record {
              linked = l;
              kept = Kept-refl s;
              entries = λ _. refl;
              order = λ v c q r. ground (arith, v.edges c, least c);
            }))
            λ below.
              let t = swap-IsLinked s i j hi hj l p (omega arith) in
              let same = size-swap s i j hi hj in
              Ends-map (sift_down_lem k _ j (omega (arith, same)) (omega arith) (omega arith) t)
                λ u r. record {
                  linked = r.linked;
                  kept = Kept-trans (swap-Kept s i j hi hj) r.kept;
                  entries = λ f. r.entries f ∙ swap-entries s i j hi hj f;
                  order = λ v. r.order (swap-DownInv s i j v hi hj lt half least (ground arith));
                })
