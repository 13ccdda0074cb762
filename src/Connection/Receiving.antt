-- ===== src/Connection/Receiving.antt =====
-- onSocketRead: the bytes that arrive are appended in order, within the limit.
use zbluenet.Base.{
  ℕ, zero, suc, ◌+◌, ◌-◌, ◌≤◌, ◌<◌, ◌≡◌, ◌⊎◌, inl, inr, refl, sym, ap, subst, ◌∙◌, arith, Bool,
  true, false, ◌&&◌, Ends, ends, Ends-bind, Ends-if, Ends-map, Outcome, List, [], ◌∷◌, ◌++◌, All,
  append-nil, append_assoc, length, length-append, max, ltb, ◌==◌,
}
use zbluenet.Base.Word.{add_size}
use zbluenet.Buffer.{Buffer, readable_bytes}
use zbluenet.Buffer.Invariant.{max_size, IsValid, contents, length-contents}
use zbluenet.Buffer.Growth.{reserve_lem}
use zbluenet.Buffer.Fifo.{store-write}
use zbluenet.Connection.{eagain, copy_in}
use zbluenet.Connection.Reading.{
  RecvResult, received, recv_failed, Arrival, ReadEnd, drained, peer_close, read_error, Loop,
  bytes_to_read, is_zero, after_recv, read_loop,
}

abbrev pub bytes_of : RecvResult → List ℕ
bytes_of (received bytes) = bytes
bytes_of (recv_failed _) = []

-- `recv` returns no more bytes than it is asked for.
abbrev pub IsFitting : Arrival → Type 0
IsFitting a = length (bytes_of a.answer) ≤ bytes_to_read a.readable

-- By how much the rounds may let the storage grow.
abbrev pub growth : ℕ → List Arrival → ℕ
growth expand_size [] = 0
growth expand_size (a ∷ later) = bytes_to_read a.readable + expand_size + growth expand_size later

-- What the loop leaves: bytes that arrived are appended to those of the buffer, at most `limit`
-- of them, unless that is 0, and the storage has `top` bytes at most.
pub record Received (limit top : ℕ) (b : Buffer) (l : Loop) : Type 0 where
  pub valid : IsValid l.read_buffer
  pub bytes : List ℕ
  pub appended : contents l.read_buffer ≡ contents b ++ bytes
  pub kept : l.read_buffer.expand_size ≡ b.expand_size
  pub within : (limit ≡ 0) ⊎ (length (contents l.read_buffer) ≤ max limit (length (contents b)))
  pub stored : length l.read_buffer.buffer ≤ top

Received-up :
    (limit low top : ℕ) (b : Buffer) (l : Loop)
    → low ≤ top
    → Received limit low b l
    → Received limit top b l
Received-up limit low top b l less q = record {
  valid = q.valid;
  bytes = q.bytes;
  appended = q.appended;
  kept = q.kept;
  within = q.within;
  stored = omega (arith, q.stored);
}

nothing-Received :
    (limit top : ℕ) (b r : Buffer) (ended : ReadEnd) (arrive : Bool)
    → IsValid r
    → contents r ≡ contents b
    → r.expand_size ≡ b.expand_size
    → length r.buffer ≤ top
    → Received limit top b (record { ended = ended; data_arrive = arrive; read_buffer = r })
nothing-Received limit top b r ended arrive v same kept stored = record {
  valid = v;
  bytes = [];
  appended = same ∙ sym (append-nil (contents b));
  kept = kept;
  within = inr (omega (arith, ap length same));
  stored = stored;
}

after_recv_lem :
    (limit top : ℕ) (answer : RecvResult) (n : ℕ) (again : Buffer → Outcome Loop) (arrive : Bool)
    (b r : Buffer)
    → IsValid r
    → contents r ≡ contents b
    → r.expand_size ≡ b.expand_size
    → length (bytes_of answer) ≤ n
    → n ≤ length r.buffer - r.write_index
    → (limit ≡ 0) ⊎ (n + length (contents b) ≤ limit)
    → length r.buffer ≤ top
    → ((t : Buffer)
        → IsValid t
        → t.expand_size ≡ b.expand_size
        → length t.buffer ≡ length r.buffer
        → Ends (Received limit top t) (again t))
    → Ends (Received limit top b) (after_recv answer again arrive r)
unfolding after_recv copy_in
after_recv_lem limit top (received []) n again arrive b r v same kept fit room guard less ih =
    ends (nothing-Received limit top b r peer_close arrive v same kept less)
after_recv_lem limit top (received (x ∷ bytes)) n again arrive b r v same kept fit room guard less
      ih =
    Ends-bind (store-write r (x ∷ bytes) (length (x ∷ bytes)) v refl (omega arith))
      λ t (valid, appended, kept', same'). Ends-map (ih t valid (kept' ∙ kept) same') λ l q.
        let now : contents t ≡ contents b ++ (x ∷ bytes) =
          appended ∙ ap (λ c. c ++ x ∷ bytes) same in
        record {
          valid = q.valid;
          bytes = (x ∷ bytes) ++ q.bytes;
          appended =
              q.appended
              ∙ ap (λ c. c ++ q.bytes) now
              ∙ append_assoc (contents b) (x ∷ bytes) q.bytes;
          kept = q.kept ∙ kept' ∙ kept;
          within = elim guard [
            | inl unlimited ↦ inl unlimited
            | inr within ↦ elim q.within [
              | inl unlimited ↦ inl unlimited
              | inr less ↦
                  inr (omega (arith, ap length now, length-append (contents b) (x ∷ bytes)))
            ]
          ];
          stored = q.stored;
        }
after_recv_lem limit top (recv_failed errno) n again arrive b r v same kept fit room guard less ih =
    Ends-if (errno == eagain)
      (λ _. ends (nothing-Received limit top b r drained arrive v same kept less))
      λ _. ends (nothing-Received limit top b r (read_error errno) arrive v same kept less)

guard-passed : (limit m : ℕ) → ltb 0 limit && ltb limit m ≡ false → (limit ≡ 0) ⊎ (m ≤ limit)
guard-passed zero m e = inl refl
guard-passed (suc limit) m e = inr (ground arith)

-- The guard lets `n` bytes in only if they stay within the limit.
within_limit :
    (limit n : ℕ) (b : Buffer)
    → IsValid b
    → limit ≤ max_size
    → n < max_size
    → ltb 0 limit && ltb limit (add_size n (readable_bytes b)) ≡ false
    → (limit ≡ 0) ⊎ (n + length (contents b) ≤ limit)
within_limit limit n b v small few e =
    let sum : add_size n (readable_bytes b) ≡ n + length (contents b) =
      omega (arith, length-contents b v, v.ordered, v.inside, v.small) in
    guard-passed limit (n + length (contents b)) (rw sum at e)

-- The loop of onSocketRead on a valid buffer whose storage may grow ends for any answers of a
-- socket that gives no more bytes than it is asked for, appends bytes to those of the buffer, and
-- holds no more than the limit, or than before, unless the limit is 0. The storage grows by no
-- more than the bytes that were asked for and a step of growth in each round.
pub read_loop_lem :
    (limit : ℕ) (arrivals : List Arrival) (arrive : Bool) (b : Buffer)
    → IsValid b
    → limit ≤ max_size
    → All IsFitting arrivals
    → length b.buffer + growth b.expand_size arrivals ≤ max_size
    → Ends
        (Received limit (length b.buffer + growth b.expand_size arrivals) b)
        (read_loop limit arrivals arrive b)
unfolding read_loop
read_loop_lem limit [] arrive b v small fit room =
    ends (nothing-Received limit _ b b drained arrive v refl refl (omega arith))
read_loop_lem limit (a ∷ later) arrive b v small fit room =
    Ends-if (arrive && is_zero a.readable)
      (λ _. ends (nothing-Received limit _ b b drained arrive v refl refl (omega arith)))
      λ _.
        let n = bytes_to_read a.readable in
        Ends-if (ltb 0 limit && ltb limit (add_size n (readable_bytes b)))
          (λ _. ends (nothing-Received limit _ b b peer_close arrive v refl refl (omega arith)))
          λ guard. Ends-bind (reserve_lem b n v (omega arith)) λ r s.
            after_recv_lem limit (length b.buffer + growth b.expand_size (a ∷ later)) a.answer n
              (read_loop limit later true) arrive b r s.valid s.same s.kept fit.0 s.room
              (within_limit limit n b v small (omega (arith, v.expands)) guard)
              (omega (arith, s.grown))
              λ t valid kept same.
                let less : length t.buffer + growth t.expand_size later
                    ≤ length b.buffer + growth b.expand_size (a ∷ later) =
                  subst
                    (λ e.
                      length t.buffer + growth e later
                      ≤ length b.buffer + growth b.expand_size (a ∷ later))
                    (sym kept) (omega (arith, same, s.grown)) in
                Ends-map (read_loop_lem limit later true t valid small fit.1 (omega (arith, less)))
                  λ l q. Received-up limit _ _ t l less q

-- A round in which bytes arrive.
abbrev pub IsData : Arrival → Type 0
IsData a = IsFitting a × (is_zero a.readable ≡ false) × (0 < length (bytes_of a.answer))

abbrev pub all_bytes : List Arrival → List ℕ
all_bytes [] = []
all_bytes (a ∷ later) = bytes_of a.answer ++ all_bytes later

-- Whether bytes have arrived.
abbrev pub arrived : Bool → List Arrival → Bool
arrived arrive [] = arrive
arrived arrive (a ∷ later) = true

arrived-true : (arrivals : List Arrival) → arrived true arrivals ≡ true
arrived-true [] = refl
arrived-true (a ∷ later) = refl

-- What the loop leaves when there is no limit and bytes arrive in every round.
pub record Complete (b : Buffer) (arrive : Bool) (arrivals : List Arrival) (l : Loop) : Type 0 where
  pub valid : IsValid l.read_buffer
  pub appended : contents l.read_buffer ≡ contents b ++ all_bytes arrivals
  pub kept : l.read_buffer.expand_size ≡ b.expand_size
  pub grown : length l.read_buffer.buffer ≤ length b.buffer + growth b.expand_size arrivals
  pub ends_drained : l.ended ≡ drained
  pub told : l.data_arrive ≡ arrived arrive arrivals

data_recv :
    (answer : RecvResult) (later : List Arrival) (again : Buffer → Outcome Loop) (arrive : Bool)
    (r : Buffer)
    → IsValid r
    → 0 < length (bytes_of answer)
    → length (bytes_of answer) ≤ length r.buffer - r.write_index
    → ((t : Buffer)
        → IsValid t
        → contents t ≡ contents r ++ bytes_of answer
        → t.expand_size ≡ r.expand_size
        → length t.buffer ≡ length r.buffer
        → Ends (Complete t true later) (again t))
    → Ends
        (λ l.
          IsValid l.read_buffer
          × (contents l.read_buffer ≡ contents r ++ (bytes_of answer ++ all_bytes later))
          × (l.read_buffer.expand_size ≡ r.expand_size)
          × (length l.read_buffer.buffer ≤ length r.buffer + growth r.expand_size later)
          × (l.ended ≡ drained)
          × (l.data_arrive ≡ true))
        (after_recv answer again arrive r)
unfolding after_recv copy_in
data_recv (recv_failed errno) later again arrive r v some_bytes room ih = absurd (omega arith)
data_recv (received []) later again arrive r v some_bytes room ih = absurd (omega arith)
data_recv (received (x ∷ bytes)) later again arrive r v some_bytes room ih =
    Ends-bind (store-write r (x ∷ bytes) (length (x ∷ bytes)) v refl room)
      λ t (valid, appended, kept, same). Ends-map (ih t valid appended kept same) λ l q. (
        q.valid,
        q.appended
            ∙ ap (λ c. c ++ all_bytes later) appended
            ∙ append_assoc (contents r) (x ∷ bytes) (all_bytes later),
        q.kept ∙ kept,
        subst (λ e. length l.read_buffer.buffer ≤ length r.buffer + growth e later) kept
            (omega (arith, q.grown, same)),
        q.ends_drained,
        q.told ∙ arrived-true later,
      )

and-right : (a b : Bool) → a && b ≡ true → b ≡ true
and-right true b e = e
and-right false true e = refl
and-right false false e = e

pub read_loop-Complete :
    (arrivals : List Arrival) (arrive : Bool) (b : Buffer)
    → IsValid b
    → All IsData arrivals
    → length b.buffer + growth b.expand_size arrivals ≤ max_size
    → Ends (Complete b arrive arrivals) (read_loop 0 arrivals arrive b)
unfolding read_loop
read_loop-Complete [] arrive b v d room = ends (record {
  valid = v;
  appended = sym (append-nil (contents b));
  kept = refl;
  grown = omega arith;
  ends_drained = refl;
  told = refl;
})
read_loop-Complete (a ∷ later) arrive b v ((fit, busy, some_bytes), d) room =
    Ends-if (arrive && is_zero a.readable)
      (λ e. absurd (ground (arith, and-right arrive (is_zero a.readable) e, busy)))
      λ _. Ends-bind (reserve_lem b (bytes_to_read a.readable) v (omega arith)) λ r s.
        Ends-map
          (data_recv a.answer later (read_loop 0 later true) arrive r s.valid some_bytes
            (omega (arith, s.room))
            λ t valid appended kept same. read_loop-Complete later true t valid d (
              subst (λ e. length t.buffer + growth e later ≤ max_size) (sym (kept ∙ s.kept))
                (omega (arith, same, s.grown))))
          λ l (valid, appended, kept, grown, stop, told). record {
            valid = valid;
            appended = appended ∙ ap (λ c. c ++ all_bytes (a ∷ later)) s.same;
            kept = kept ∙ s.kept;
            grown =
                let g =
                  subst (λ e. length l.read_buffer.buffer ≤ length r.buffer + growth e later) s.kept
                    grown in
                omega (arith, g, s.grown);
            ends_drained = stop;
            told = told;
          }
