-- ===== src/Connection/Sending.antt =====
-- sendMessage and onSocketWrite: what goes out on the socket.
use zbluenet.Base.{
  ℕ, ◌+◌, ◌-◌, ◌≤◌, ◌<◌, ◌≡◌, ◌⊎◌, inl, inr, refl, sym, ap, subst, ◌∙◌, arith, Bool, true, false,
  not, none, ◌&&◌, max, Ends, ends, Ends-bind, Ends-if, Ends-map, List, [], ◌++◌, append-nil,
  append_assoc, Option, length, length-append, take, drop, length-take, take-length, ltb, ◌==◌,
  if◌then◌else◌,
}
use zbluenet.Base.Word.{add_size, sub_size}
use zbluenet.Buffer.{Buffer, readable_bytes}
use zbluenet.Buffer.Invariant.{max_size, IsValid, contents}
use zbluenet.Buffer.Growth.{reserve_lem}
use zbluenet.Buffer.Fifo.{store-write}
use zbluenet.Connection.{
  Connection, connected, pending_error, is_connected, SendComplete, SendResult, took, send_failed,
  Sent, failed, set_error, copy_in, eagain, enobufs, append_message, queue_message, after_send,
  send_message,
}

-- Bytes wait for the socket only while a write callback is set.
pub record IsSound (c : Connection) : Type 0 where
  pub buffer : IsValid c.write_buffer
  pub armed : (contents c.write_buffer ≡ []) ⊎ (c.write_callback ≡ true)

-- What the peer gets: the bytes on the wire and those that wait.
abbrev pub outgoing : Connection → List ℕ
outgoing c = c.wire ++ contents c.write_buffer

-- After success the bytes are on their way. After a failure the connection waits for the timer
-- that reports it, and only what the socket took before is on its way.
abbrev pub Branch : Bool → Connection → List ℕ → List ℕ → Sent → Type 0
Branch true c bytes before s =
    (outgoing s.connection ≡ outgoing c ++ bytes)
    × (s.connection.status ≡ c.status)
    × (s.error_timer ≡ false)
Branch false c bytes before s =
    (outgoing s.connection ≡ outgoing c ++ before)
    × (s.connection.status ≡ pending_error)
    × (s.error_timer ≡ true)

-- `limit` is the maximal size of the write buffer, 0 for none. The storage may be longer by two
-- steps of growth.
pub record Sends (limit : ℕ) (cb : Option SendComplete) (c : Connection) (bytes before : List ℕ)
    (s : Sent) : Type 0 where
  pub sound : IsSound s.connection
  pub branch : Branch s.result c bytes before s
  pub on_wire : s.connection.wire ≡ c.wire ++ before
  pub completes : (s.completed ≡ none) ⊎ (s.completed ≡ cb)
  pub expand_kept : s.connection.write_buffer.expand_size ≡ c.write_buffer.expand_size
  pub grown :
      length s.connection.write_buffer.buffer
      ≤ length c.write_buffer.buffer + length bytes + c.write_buffer.expand_size
  pub bounded :
      0 < limit
      → length s.connection.write_buffer.buffer
        ≤ max
            (length c.write_buffer.buffer)
            (limit + c.write_buffer.expand_size + c.write_buffer.expand_size)

failed-Sends :
    (limit : ℕ) (cb : Option SendComplete) (c : Connection) (bytes : List ℕ) (errno : ℕ)
    → IsSound c
    → Sends limit cb c bytes [] (failed errno c)
unfolding set_error
failed-Sends limit cb c bytes errno v = record {
  completes = inl refl;
  sound = record { buffer = v.buffer; armed = v.armed };
  branch = (sym (append-nil (outgoing c)), refl, refl);
  on_wire = sym (append-nil c.wire);
  expand_kept = refl;
  grown = omega arith;
  bounded = λ _. omega arith;
}

-- What the check of the maximal size lets through.
within :
    (limit n : ℕ) (b : Buffer)
    → IsValid b
    → length b.buffer + n ≤ max_size
    → ltb 0 limit && ltb limit (add_size n (readable_bytes b)) ≡ false
    → 0 < limit
    → b.write_index - b.read_index + n ≤ limit
within limit n b v fits allowed positive = ground arith

module _ (limit : ℕ) (message : List ℕ) (cb : Option SendComplete) (c : Connection)
    (v : IsSound c) where
  append_message_lem :
      (n : ℕ)
      → n ≤ length message
      → length c.write_buffer.buffer + n + c.write_buffer.expand_size ≤ max_size
      → ltb 0 limit && ltb limit (add_size n (readable_bytes c.write_buffer)) ≡ false
      → Ends (Sends limit cb c (take n message) []) (append_message message n cb c)
  unfolding append_message copy_in
  append_message_lem n h fits allowed =
      Ends-bind (reserve_lem c.write_buffer n v.buffer fits) λ r s.
        let len = length-take n message in
        Ends-bind
          (store-write r (take n message) n s.valid (omega (arith, len)) (omega (arith, s.room)))
          λ b (valid, appended, kept, same). ends (record {
            sound = record { buffer = valid; armed = inr refl };
            branch = (
              ap (◌++◌ c.wire) (appended ∙ ap (λ q. q ++ take n message) s.same)
                  ∙ sym (append_assoc c.wire (contents c.write_buffer) (take n message)),
              refl,
              refl,
            );
            on_wire = sym (append-nil c.wire);
            completes = inl refl;
            expand_kept = kept ∙ s.kept;
            grown = omega (arith, len, same, s.grown);
            bounded = λ positive. omega (
              arith,
              same,
              s.near,
              within limit n c.write_buffer v.buffer (omega arith) allowed positive,
            );
          })

  queue_message_lem :
      (n : ℕ)
      → n ≤ length message
      → length c.write_buffer.buffer + n + c.write_buffer.expand_size ≤ max_size
      → Ends (Sends limit cb c (take n message) []) (queue_message limit message n cb c)
  unfolding queue_message
  queue_message_lem n h fits =
      Ends-if (ltb 0 n)
        (λ e.
          Ends-if (ltb 0 limit && ltb limit (add_size n (readable_bytes c.write_buffer)))
            (λ full. ends (failed-Sends limit cb c (take n message) enobufs v))
            λ room. append_message_lem n h fits room)
        λ e.
          let empty : take n message ≡ [] = ap (λ k. take k message) {y = 0} (ground arith) in
          ends (
            rw empty (record {
              sound = v;
              branch = (sym (append-nil (outgoing c)), refl, refl);
              on_wire = sym (append-nil c.wire);
              completes = inr refl;
              expand_kept = refl;
              grown = omega arith;
              bounded = λ _. omega arith;
            }))

-- How many bytes of the message the socket takes at once.
abbrev pub accepted : SendResult → Connection → ℕ
accepted (took k) c = if readable_bytes c.write_buffer == 0 then k else 0
accepted (send_failed errno) c = 0

pub accepted-waiting :
    (answer : SendResult) (c : Connection)
    → readable_bytes c.write_buffer == 0 ≡ false
    → accepted answer c ≡ 0
accepted-waiting (took k) c e = ground arith
accepted-waiting (send_failed errno) c e = refl

module _ (limit : ℕ) (cb : Option SendComplete) (c d : Connection) (before bytes : List ℕ)
    (moved : outgoing d ≡ outgoing c ++ before) (status : d.status ≡ c.status)
    (wired : d.wire ≡ c.wire ++ before) where
  shift-Branch :
      (b : Bool) (s : Sent) → Branch b d bytes [] s → Branch b c (before ++ bytes) before s
  shift-Branch true s (out, same, timer) = (
    out ∙ ap (λ q. q ++ bytes) moved ∙ append_assoc (outgoing c) before bytes,
    same ∙ status,
    timer,
  )
  shift-Branch false s (out, same, timer) = (out ∙ append-nil (outgoing d) ∙ moved, same, timer)

  shift-Sends :
      (s : Sent)
      → d.write_buffer ≡ c.write_buffer
      → Sends limit cb d bytes [] s
      → Sends limit cb c (before ++ bytes) before s
  shift-Sends s same r = record {
    sound = r.sound;
    branch = shift-Branch s.result s r.branch;
    on_wire = r.on_wire ∙ append-nil d.wire ∙ wired;
    completes = r.completes;
    expand_kept = r.expand_kept ∙ ap (λ (b : Buffer). b.expand_size) same;
    grown = let g = rw same at r.grown in omega (arith, g, length-append before bytes);
    bounded = λ positive. rw same at (r.bounded positive);
  }

pub empty-contents : (b : Buffer) → IsValid b → readable_bytes b == 0 ≡ true → contents b ≡ []
empty-contents b v e = ap (λ n. take n (drop b.read_index b.buffer)) {y = 0} (ground arith)

module _ (limit : ℕ) (message : List ℕ) (cb : Option SendComplete) (c : Connection) (v : IsSound c)
    (fits : length c.write_buffer.buffer + length message + c.write_buffer.expand_size
      ≤ max_size) where
  whole-Sends :
      Ends
        (Sends limit cb c (take 0 message ++ take (length message - 0) message) (take 0 message))
        (queue_message limit message (length message) cb c)
  whole-Sends =
      subst
        (λ n.
          Ends (Sends limit cb c (take n message) [])
            (queue_message limit message (length message) cb c))
        {x = length message} (omega arith)
        (queue_message_lem limit message cb c v (length message) (omega arith) fits)

  after_send_lem :
      (answer : SendResult)
      → readable_bytes c.write_buffer == 0 ≡ true
      → accepted answer c ≤ length message
      → Ends
          (Sends limit cb c
            (take (accepted answer c) message ++ take (length message - accepted answer c) message)
            (take (accepted answer c) message))
          (after_send limit message cb answer c)
  unfolding after_send
  after_send_lem (took k) e h =
      let empty = empty-contents c.write_buffer v.buffer e in
      let moved = record c { wire = c.wire ++ take k message } in
      let left : sub_size (length message) k ≡ length message - k =
        ground (arith, v.buffer.small) in
      let out : outgoing moved ≡ outgoing c ++ take k message =
        rw (empty, append-nil (c.wire ++ take k message), append-nil c.wire) refl in
      rw (e, left)
        (Ends-map
          (queue_message_lem limit message cb moved (record { buffer = v.buffer; armed = v.armed })
            (length message - k) (omega arith) (omega arith))
          λ s r.
            shift-Sends limit cb c moved (take k message) (take (length message - k) message) out
              refl refl s refl r)
  after_send_lem (send_failed errno) e h =
      Ends-if (errno == eagain) (λ _. whole-Sends)
        λ _. ends (failed-Sends limit cb c (take (length message - 0) message) errno v)

  -- Whatever number of bytes the socket takes at once, sendMessage that succeeds on a sound
  -- connected connection whose storage may grow puts these bytes behind those on their way, and
  -- then as many bytes from the start of the message as were not taken; a failure leaves just the
  -- bytes taken. With a limit, the storage is no larger than it was, or than the limit and two
  -- steps of growth.
  pub send_message_lem :
      (answer : SendResult)
      → c.status ≡ connected
      → accepted answer c ≤ length message
      → Ends
          (Sends limit cb c
            (take (accepted answer c) message ++ take (length message - accepted answer c) message)
            (take (accepted answer c) message))
          (send_message limit message cb answer c)
  unfolding send_message
  send_message_lem answer alive h =
      let ok : is_connected c.status ≡ true = ap is_connected alive in
      Ends-if (not (is_connected c.status)) (λ e. absurd (ground (arith, ok)))
        λ _.
          Ends-if (readable_bytes c.write_buffer == 0) (λ e. after_send_lem answer e h)
            λ e. rw (accepted-waiting answer c e) whole-Sends

-- sendMessage on a sound connected connection whose storage may grow, when the socket takes the
-- message whole or not at all, puts the message once behind the bytes on their way, or fails and
-- starts the timer that reports the error.
pub send_message-whole :
    (limit : ℕ) (message : List ℕ) (cb : Option SendComplete) (c : Connection) (answer : SendResult)
    → IsSound c
    → length c.write_buffer.buffer + length message + c.write_buffer.expand_size ≤ max_size
    → c.status ≡ connected
    → (accepted answer c ≡ 0) ⊎ (accepted answer c ≡ length message)
    → Ends
        (Sends limit cb c message (take (accepted answer c) message))
        (send_message limit message cb answer c)
send_message-whole limit message cb c answer v fits alive whole =
    let k = accepted answer c in
    let once : take k message ++ take (length message - k) message ≡ message = elim whole [
      | inl none_taken ↦ rw none_taken (take-length (length message - 0) message (omega arith))
      | inr all_taken ↦
          rw (all_taken, take-length (length message) message (omega arith))
            (ap (λ n. message ++ take n message) {y = 0} (omega arith) ∙ append-nil message)
    ] in
    subst (λ b. Ends (Sends limit cb c b (take k message)) (send_message limit message cb answer c))
      once (send_message_lem limit message cb c v fits answer alive (ground (arith, whole)))
