-- ===== src/Timers/Order/Up.antt =====
-- The loop of minHeapInsert restores the order of the heap.
use zbluenet.Base.{
  ℕ, zero, suc, ◌/◌, ◌≤◌, ◌<◌, ◌≡◌, ◌≢◌, arith, refl, ◌∙◌, Ends, ends, Ends-if, Ends-map, ltb, ◌==◌,
}
use zbluenet.Timers.{Impl, size, swap_timers, sift_up}
use zbluenet.Timers.Order.{
  IsLinked, IsHeap, Kept, Kept-refl, Kept-trans, HasEntries, key, less-key, size-swap, key-swap,
  swap-Kept, swap-IsLinked, swap-entries,
}

-- Only the edge above `i` may be out of order.
pub record UpInv (s : Impl) (i : ℕ) : Type 0 where
  pub positive : 0 < i
  pub inside : i < size s
  pub edges : (c : ℕ) → 1 < c → c < size s → c ≢ i → key s (c / 2) ≤ key s c
  pub bridged : (c : ℕ) → c < size s → c / 2 ≡ i → 1 < i → key s (i / 2) ≤ key s c

swap-UpInv :
    (s : Impl) (i : ℕ)
    → UpInv s i
    → 1 < i
    → key s i ≤ key s (i / 2)
    → UpInv (swap_timers s (i / 2) i) (i / 2)
swap-UpInv s i v h below =
    let hp : i / 2 < size s = omega (arith, v.inside) in
    let at = key-swap s (i / 2) i hp v.inside in
    record {
      positive = omega arith;
      inside = omega (arith, size-swap s (i / 2) i hp v.inside);
      edges = λ c p q r.
          ground
            (arith, at c, at (c / 2), size-swap s (i / 2) i hp v.inside, v.edges c, v.bridged c);
      bridged = λ c p q r. ground (
        arith,
        at c,
        at (i / 2 / 2),
        size-swap s (i / 2) i hp v.inside,
        v.edges c,
        v.edges (i / 2),
      );
    }

-- The loop keeps the links and the timers in any case.
pub record Risen (s : Impl) (i : ℕ) (t : Impl) : Type 0 where
  pub linked : IsLinked t
  pub kept : Kept s t
  pub entries : HasEntries s t
  pub order : UpInv s i → IsHeap t

pub sift_up_lem :
    (k : ℕ) (s : Impl) (i : ℕ)
    → i < k
    → 0 < i
    → i < size s
    → IsLinked s
    → Ends (Risen s i) (sift_up k s i)
unfolding sift_up
sift_up_lem zero s i f p h l = absurd (omega arith)
sift_up_lem (suc k) s i f p h l =
    Ends-if (i / 2 == 0)
      (λ e. ends (record {
        linked = l;
        kept = Kept-refl s;
        entries = λ _. refl;
        order = λ v c q r. ground (arith, v.edges c);
      }))
      λ e.
        let hp : i / 2 < size s = omega arith in
        rw (less-key s (i / 2) i l) (
          Ends-if (ltb (key s (i / 2)) (key s i))
            (λ above. ends (record {
              linked = l;
              kept = Kept-refl s;
              entries = λ _. refl;
              order = λ v c q r. ground (arith, v.edges c);
            }))
            λ below.
              let t = swap-IsLinked s (i / 2) i hp h l (ground arith) p in
              let same = size-swap s (i / 2) i hp h in
              Ends-map
                (sift_up_lem k _ (i / 2) (omega arith) (ground arith) (omega (arith, same)) t)
                λ u r. record {
                  linked = r.linked;
                  kept = Kept-trans (swap-Kept s (i / 2) i hp h) r.kept;
                  entries = λ f. r.entries f ∙ swap-entries s (i / 2) i hp h f;
                  order = λ v. r.order (swap-UpInv s i v (ground arith) (ground arith));
                })
