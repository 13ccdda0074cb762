-- ===== src/Buffer/Runs.antt =====
-- Sequences of calls: a DynamicBuffer against a queue of bytes, and integers written and read back.
use zbluenet.Base.{
  ℕ, ◌+◌, ◌^◌, ◌≤◌, ◌<◌, ◌≡◌, refl, sym, ap, ◌∙◌, Bool, List, [], ◌∷◌, ◌++◌, append-nil,
  append_assoc, arith, Option, some, length, take, drop, All, map, Outcome, done, ◌>>=◌, Ends, ends,
  Ends-inv, Ends-bind,
}
use zbluenet.Buffer.{Buffer, read_bytes, write_bytes}
use zbluenet.Buffer.Invariant.{max_size, IsValid, contents}
use zbluenet.Buffer.Fifo.{write_bytes_lem, read_bytes_lem}
use zbluenet.Buffer.Integers.Laws.{
  Width, bits, size, bytes_of, length-bytes_of, read_int, write_int, read_int_lem, write_int_lem,
}

-- A client's calls: writeBytes and readBytes.
pub data Op : Type 0 where
  put : List ℕ → Op
  get : ℕ → Op

-- What the calls of readBytes return, in order.
unfoldable pub run : Buffer → List Op → Outcome (List (List ℕ))
run b [] = done []
run b (put src ∷ ops) = do r ← write_bytes b src; run r ops
run b (get n ∷ ops) = do (out, r) ← read_bytes b n; rest ← run r ops; done (out ∷ rest)

-- The same calls on a queue of bytes.
unfoldable pub run_queue : List ℕ → List Op → List (List ℕ)
run_queue q [] = []
run_queue q (put src ∷ ops) = run_queue (q ++ src) ops
run_queue q (get n ∷ ops) = take n q ∷ run_queue (drop n q) ops

-- By how much the calls may let the storage grow.
abbrev pub demand : ℕ → List Op → ℕ
demand expand_size [] = 0
demand expand_size (put src ∷ ops) = length src + expand_size + demand expand_size ops
demand expand_size (get n ∷ ops) = demand expand_size ops

-- No sequence of writeBytes and readBytes tells a valid buffer from the queue of the bytes that it
-- holds, as long as the storage may grow: no call faults, and each readBytes returns what the
-- queue gives.
pub run_refines :
    (ops : List Op) (b : Buffer)
    → IsValid b
    → length b.buffer + demand b.expand_size ops ≤ max_size
    → run b ops ≡ done (run_queue (contents b) ops)
unfolding run run_queue
run_refines [] b v fits = refl
run_refines (put src ∷ ops) b v fits =
    let (r, e, s) = Ends-inv (write_bytes_lem b src v (omega arith)) in
    rw e (
      run_refines ops r s.valid (omega (arith, s.grown, ap (λ k. demand k ops) s.kept))
      ∙ ap (λ q. done (run_queue q ops)) s.appended)
run_refines (get n ∷ ops) b v fits =
    let ((out, r), e, s) = Ends-inv (read_bytes_lem b n v) in
    rw (
      e,
      run_refines ops r s.valid
          (omega (arith, fits, ap length s.stored, ap (λ k. demand k ops) s.kept)),
      s.taken,
      s.left,
    )

-- An integer to write: its width, its byte order and its value.
pub record Field : Type 0 where
  pub width : Width
  pub little_endian : Bool
  pub value : ℕ

abbrev pub fields_bytes : List Field → List ℕ
fields_bytes [] = []
fields_bytes (f ∷ fs) = bytes_of f.width f.little_endian f.value ++ fields_bytes fs

unfoldable pub write_fields : Buffer → List Field → Outcome Buffer
write_fields b [] = done b
write_fields b (f ∷ fs) = do r ← write_int f.width f.little_endian f.value b; write_fields r fs

-- Integers of the same widths and byte orders read from the front; `none` is a failed read.
unfoldable pub read_fields : Buffer → List Field → Outcome (List (Option ℕ) × Buffer)
read_fields b [] = done ([], b)
read_fields b (f ∷ fs) = do
  (v, r) ← read_int f.width f.little_endian b
  (vs, r') ← read_fields r fs
  done (v ∷ vs, r')

abbrev pub fields_demand : ℕ → List Field → ℕ
fields_demand expand_size [] = 0
fields_demand expand_size (f ∷ fs) = size f.width + expand_size + fields_demand expand_size fs

abbrev pub InRange : Field → Type 0
InRange f = f.value < 2 ^ bits f.width

write_fields_lem :
    (fs : List Field) (b : Buffer)
    → IsValid b
    → length b.buffer + fields_demand b.expand_size fs ≤ max_size
    → Ends (λ r. IsValid r × (contents r ≡ contents b ++ fields_bytes fs)) (write_fields b fs)
unfolding write_fields
write_fields_lem [] b v fits = ends (v, sym (append-nil (contents b)))
write_fields_lem (f ∷ fs) b v fits =
    Ends-bind (write_int_lem f.width f.little_endian f.value b v (omega arith)) λ r s.
      rw
        (
          ← append_assoc (contents b) (bytes_of f.width f.little_endian f.value) (fields_bytes fs),
          ← s.appended,
        )
        (write_fields_lem fs r s.valid (
          omega (
            arith,
            s.grown,
            length-bytes_of f.width f.little_endian f.value,
            ap (λ k. fields_demand k fs) s.kept,
          )))

read_fields_lem :
    (fs : List Field) (b : Buffer) (rest : List ℕ)
    → IsValid b
    → All InRange fs
    → contents b ≡ fields_bytes fs ++ rest
    → Ends
        (λ out. (out.0 ≡ map (λ f. some f.value) fs) × (contents out.1 ≡ rest))
        (read_fields b fs)
unfolding read_fields
read_fields_lem [] b rest v small e = ends (refl, e)
read_fields_lem (f ∷ fs) b rest v small e =
    Ends-bind
      (read_int_lem f.width f.little_endian f.value (fields_bytes fs ++ rest) b v small.0
        (e ∙ append_assoc (bytes_of f.width f.little_endian f.value) (fields_bytes fs) rest))
      λ (o, r) s.
        Ends-bind (read_fields_lem fs r rest s.valid small.1 s.left)
          λ (vs, r') (found, left). ends (rw (s.found, found), left)

-- Integers of any widths and byte orders, written to a valid empty buffer whose storage may grow
-- by their bytes and one `expand_size` each, are read back in order with the same values, and
-- nothing is left.
pub read_fields-write_fields :
    (fs : List Field) (b : Buffer)
    → IsValid b
    → contents b ≡ []
    → All InRange fs
    → length b.buffer + fields_demand b.expand_size fs ≤ max_size
    → Ends
        (λ out. (out.0 ≡ map (λ f. some f.value) fs) × (contents out.1 ≡ []))
        (write_fields b fs >>= λ r. read_fields r fs)
read_fields-write_fields fs b v empty small fits =
    Ends-bind (write_fields_lem fs b v fits) λ r (valid, q).
      read_fields_lem fs r [] valid small
        (q ∙ ap (λ c. c ++ fields_bytes fs) empty ∙ sym (append-nil (fields_bytes fs)))
