-- ===== src/Base/Arrays.antt =====
-- Lists as arrays: an entry read with `get_or`, written with `set` or exchanged with another.
use Prim.Native.Nat.{ℕ, zero, suc, ◌+◌, ◌<◌, ◌≤◌}
use mathlib.Core.Logic.{◌≢◌, inl, inr}
use mathlib.Core.Path.{◌≡◌, refl, ap, ◌∙◌}
use mathlib.Core.List.{List, [], ◌∷◌, ◌++◌}
use native.Mathlib.Omega.{arith}
use zbluenet.Base.Tests.{◌==◌, if◌then◌else◌, Bool-cases}
use zbluenet.Base.Lists.{length, take, get_or}

module _ {ℓ} {A : Type ℓ} where
  abbrev pub set : List A → ℕ → A → List A
  set (x ∷ xs) zero v = v ∷ xs
  set (x ∷ xs) (suc k) v = x ∷ set xs k v
  set [] k v = []

  -- A write changes the entry at its place only.
  pub get_or-set :
      (xs : List A) (k m : ℕ) (v d : A)
      → k < length xs
      → get_or (set xs k v) m d ≡ (if k == m then v else get_or xs m d)
  get_or-set (x ∷ xs) (suc k) (suc m) v d inside = ground (arith, get_or-set xs k m v d)
  get_or-set (x ∷ xs) zero zero v d inside = refl
  get_or-set [] k m v d inside = absurd (omega arith)
  get_or-set (x ∷ xs) k m v d inside = ground arith

  pub length-set : (xs : List A) (k : ℕ) (v : A) → length (set xs k v) ≡ length xs
  length-set (x ∷ xs) (suc k) v = ap suc (length-set xs k v)
  length-set (x ∷ xs) zero v = refl
  length-set [] k v = refl

  pub get_or-append :
      (xs ys : List A) (k : ℕ) (d : A) → k < length xs → get_or (xs ++ ys) k d ≡ get_or xs k d
  get_or-append (x ∷ xs) ys (suc k) d inside = get_or-append xs ys k d (omega arith)
  get_or-append (x ∷ xs) ys zero d inside = refl
  get_or-append [] ys k d inside = absurd (omega arith)

  pub get_or-last : (a : List A) (x d : A) → get_or (a ++ x ∷ []) (length a) d ≡ x
  get_or-last [] x d = refl
  get_or-last (y ∷ a) x d = get_or-last a x d

  pub get_or-take :
      (n : ℕ) (xs : List A) (k : ℕ) (d : A) → k < n → get_or (take n xs) k d ≡ get_or xs k d
  get_or-take (suc n) (x ∷ xs) (suc k) d inside = get_or-take n xs k d (omega arith)
  get_or-take (suc n) (x ∷ xs) zero d inside = refl
  get_or-take (suc n) [] k d inside = refl
  get_or-take zero xs k d inside = absurd (omega arith)

  abbrev pub total : (A → ℕ) → List A → ℕ
  total f [] = 0
  total f (x ∷ a) = f x + total f a

  pub total-set :
      (f : A → ℕ) (a : List A) (i : ℕ) (v d : A)
      → i < length a
      → total f (set a i v) + f (get_or a i d) ≡ total f a + f v
  total-set f [] i v d h = absurd (omega arith)
  total-set f (x ∷ a) zero v d h = omega arith
  total-set f (x ∷ a) (suc i) v d h = omega (arith, total-set f a i v d)

  pub total-append : (f : A → ℕ) (a b : List A) → total f (a ++ b) ≡ total f a + total f b
  total-append f [] b = omega arith
  total-append f (x ∷ a) b = omega (arith, total-append f a b)

  pub total-take :
      (f : A → ℕ) (n : ℕ) (a : List A) (d : A)
      → length a ≡ suc n
      → total f (take n a) + f (get_or a n d) ≡ total f a
  total-take f n [] d h = absurd (omega arith)
  total-take f zero (x ∷ []) d h = omega arith
  total-take f zero (x ∷ y ∷ a) d h = absurd (omega arith)
  total-take f (suc n) (x ∷ a) d h = omega (arith, total-take f n a d)

  -- The entries at two places exchanged.
  abbrev pub swap_entries : List A → ℕ → ℕ → A → List A
  swap_entries a i j d = set (set a i (get_or a j d)) j (get_or a i d)

  pub length-swap : (a : List A) (i j : ℕ) (d : A) → length (swap_entries a i j d) ≡ length a
  length-swap a i j d = simp length-set

  module _ (a : List A) (i j : ℕ) (d : A) (hi : i < length a) (hj : j < length a) where
    abbrev halfway : List A
    halfway = set a i (get_or a j d)

    pub get_or-swap :
        (m : ℕ)
        → get_or (swap_entries a i j d) m d
          ≡ (if j == m then get_or a i d else if i == m then get_or a j d else get_or a m d)
    get_or-swap m =
        let inside : j < length halfway = omega (arith, length-set a i (get_or a j d)) in
        get_or-set halfway j m (get_or a i d) d inside
        ∙ ap (λ e. if j == m then get_or a i d else e) (get_or-set a i m (get_or a j d) d hi)

    pub total-swap : (f : A → ℕ) → total f (swap_entries a i j d) ≡ total f a
    total-swap f =
        let b = set a i (get_or a j d) in
        let kept : get_or b j d ≡ get_or a j d =
          ground (arith, get_or-set a i j (get_or a j d) d) in
        let first = total-set f a i (get_or a j d) d hi in
        let second = rw kept at (total-set f b j (get_or a i d) d (rw length-set hj)) in
        omega (arith, first, second)

  pub get_or_le-total :
      (f : A → ℕ) (a : List A) (i : ℕ) (d : A) → i < length a → f (get_or a i d) ≤ total f a
  get_or_le-total f [] i d h = absurd (omega arith)
  get_or_le-total f (x ∷ a) zero d h = omega arith
  get_or_le-total f (x ∷ a) (suc i) d h = omega (arith, get_or_le-total f a i d)

  pub get_or_twice_le-total :
      (f : A → ℕ) (a : List A) (i j : ℕ) (d : A)
      → i < j
      → j < length a
      → f (get_or a i d) + f (get_or a j d) ≤ total f a
  get_or_twice_le-total f [] i j d h k = absurd (omega arith)
  get_or_twice_le-total f (x ∷ a) i zero d h k = absurd (omega arith)
  get_or_twice_le-total f (x ∷ a) zero (suc j) d h k = omega (arith, get_or_le-total f a j d)
  get_or_twice_le-total f (x ∷ a) (suc i) (suc j) d h k =
      omega (arith, get_or_twice_le-total f a i j d)

-- How often a number is in a list.
abbrev pub count : ℕ → List ℕ → ℕ
count id = total (λ x. if x == id then 1 else 0)

pub count-get_or :
    (id : ℕ) (a : List ℕ) → 0 < count id a → (i : ℕ) × (i < length a) × (get_or a i 0 ≡ id)
count-get_or id [] h = absurd (omega arith)
count-get_or id (x ∷ a) h = elim (Bool-cases (x == id)) [
  | inl e ↦ (0, omega arith, ground arith)
  | inr e ↦ let (i, p, q) = count-get_or id a (ground arith) in (suc i, omega arith, q)
]

-- Two functions that differ at one number have the same total over a list without it.
pub total-apart :
    (f g : ℕ → ℕ) (id : ℕ) (a : List ℕ)
    → ((x : ℕ) → x ≢ id → f x ≡ g x)
    → count id a ≡ 0
    → total f a ≡ total g a
total-apart f g id [] same h = refl
total-apart f g id (x ∷ a) same h = ground (arith, same x, total-apart f g id a same)
