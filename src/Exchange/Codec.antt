-- ===== src/Exchange/Codec.antt =====
-- What a pair of macros promises: the WRITE macro puts the encoding if there is room for all of
-- it and fails otherwise, and the READ macro takes the encoding back off the front.
use zbluenet.Base.{
  ℕ, ◌-◌, ◌≡◌, List, ◌++◌, append_assoc, Option, none, some, arith, length, leb, if◌then◌else◌,
  length-append,
}
use zbluenet.Exchange.{Cursor, Reader, ◌>>=◌}

-- `bytes` put at the cursor, if they fit.
abbrev pub put : List ℕ → Cursor → Option Cursor
put bytes c =
    if leb (length bytes) c.left_bytes
    then some (record { written = c.written ++ bytes; left_bytes = c.left_bytes - length bytes })
    else none

-- Two pieces fit one after the other exactly when the whole fits.
pub put-put : (xs ys : List ℕ) (c : Cursor) → (put xs c >>= put ys) ≡ put (xs ++ ys) c
put-put xs ys c = ground (arith, length-append xs ys, append_assoc c.written xs ys)

pub record IsCodec {ℓ} {A : Type ℓ} (Valid : A → Type 0) (encoding : A → List ℕ)
    (write : A → Cursor → Option Cursor) (read : Reader A) : Type ℓ where
  pub write_lem : (v : A) (c : Cursor) → Valid v → write v c ≡ put (encoding v) c
  pub read_lem : (v : A) (rest : List ℕ) → Valid v → read (encoding v ++ rest) ≡ some (v, rest)

-- The two laws at a value, a cursor and what follows.
abbrev pub RoundTrip {ℓ} :
    {A : Type ℓ}
    → (A → List ℕ)
    → (A → Cursor → Option Cursor)
    → Reader A
    → A
    → Cursor
    → List ℕ
    → Type ℓ
RoundTrip encoding write read v c rest =
    (write v c ≡ put (encoding v) c) × (read (encoding v ++ rest) ≡ some (v, rest))
