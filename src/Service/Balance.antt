-- ===== src/Service/Balance.antt =====
-- onNewConnCallback gives the connection to a net thread with the fewest connections.
use zbluenet.Base.{
  ℕ, zero, suc, ◌+◌, ◌≤◌, ◌<◌, ◌≡◌, ◌⊎◌, refl, sym, subst, arith, inl, inr, List, [], ◌∷◌, length,
  get_or, ltb, Bool-cases, ltb→lt, ltb-false→le, Ends, ends,
}
use zbluenet.Service.{choose_from, choose_thread}

-- The first place with the least number.
pub record IsFirstLeast (counts : List ℕ) (k : ℕ) : Type 0 where
  pub inside : k < length counts
  pub least : (j : ℕ) → j < length counts → get_or counts k 0 ≤ get_or counts j 0
  pub first : (j : ℕ) → j < k → get_or counts k 0 < get_or counts j 0

-- The choice from the rest: the best so far, or the first least of the rest, which is less.
abbrev Chosen : ℕ → ℕ → ℕ → List ℕ → ℕ → Type 0
Chosen i best least rest k =
    ((k ≡ best) × ((j : ℕ) → j < length rest → least ≤ get_or rest j 0))
    ⊎ ((d : ℕ) × (k ≡ i + d) × IsFirstLeast rest d × (get_or rest d 0 < least))

above-cons :
    (least n : ℕ) (rest : List ℕ)
    → least ≤ n
    → ((j : ℕ) → j < length rest → least ≤ get_or rest j 0)
    → (j : ℕ) → j < suc (length rest)
    → least ≤ get_or (n ∷ rest) j 0
above-cons least n rest small above zero h = small
above-cons least n rest small above (suc j) h = above j (omega arith)

head-IsFirstLeast :
    (n : ℕ) (rest : List ℕ)
    → ((j : ℕ) → j < length rest → n ≤ get_or rest j 0)
    → IsFirstLeast (n ∷ rest) 0
head-IsFirstLeast n rest above = record {
  inside = omega arith;
  least = above-cons n n rest (omega arith) above;
  first = λ j h. absurd (omega arith);
}

first-cons :
    (least n : ℕ) (rest : List ℕ) (d : ℕ)
    → least < n
    → ((j : ℕ) → j < d → least < get_or rest j 0)
    → (j : ℕ) → j < suc d
    → least < get_or (n ∷ rest) j 0
first-cons least n rest d less first zero h = less
first-cons least n rest d less first (suc j) h = first j (omega arith)

tail-IsFirstLeast :
    (n : ℕ) (rest : List ℕ) (d : ℕ)
    → IsFirstLeast rest d
    → get_or rest d 0 < n
    → IsFirstLeast (n ∷ rest) (suc d)
tail-IsFirstLeast n rest d v less = record {
  inside = omega (arith, v.inside);
  least = above-cons (get_or rest d 0) n rest (omega arith) v.least;
  first = first-cons (get_or rest d 0) n rest d less v.first;
}

choose_from_lem :
    (i best least : ℕ) (rest : List ℕ) → Chosen i best least rest (choose_from i best least rest)
unfolding choose_from
choose_from_lem i best least [] = inl (refl, λ j h. absurd (omega arith))
choose_from_lem i best least (n ∷ rest) = elim (Bool-cases (ltb n least)) [
  | inl e ↦ rw e (elim (choose_from_lem (suc i) i n rest) [
    | inl (same, above) ↦
        inr (0, omega (arith, same), head-IsFirstLeast n rest above, ground (arith, e))
    | inr (d, same, v, less) ↦ inr (
      suc d,
      omega (arith, same),
      tail-IsFirstLeast n rest d v less,
      omega (arith, less, ltb→lt n least e),
    )
  ])
  | inr e ↦ rw e (elim (choose_from_lem (suc i) best least rest) [
    | inl (same, above) ↦ inl (same, above-cons least n rest (ltb-false→le n least e) above)
    | inr (d, same, v, less) ↦ inr (
      suc d,
      omega (arith, same),
      tail-IsFirstLeast n rest d v (omega (arith, less, ltb-false→le n least e)),
      less,
    )
  ])
]

-- With at least one net thread, a new connection goes to one that has no more connections than any
-- other, and to the first of these.
pub choose_thread_lem :
    (counts : List ℕ) → 0 < length counts → Ends (IsFirstLeast counts) (choose_thread counts)
unfolding choose_thread
choose_thread_lem [] h = absurd (omega arith)
choose_thread_lem (n ∷ rest) h = elim (choose_from_lem 1 0 n rest) [
  | inl (same, above) ↦
      ends (subst (IsFirstLeast (n ∷ rest)) (sym same) (head-IsFirstLeast n rest above))
  | inr (d, same, v, less) ↦ ends (
      subst (IsFirstLeast (n ∷ rest)) {x = suc d} (omega (arith, same))
        (tail-IsFirstLeast n rest d v less))
]
