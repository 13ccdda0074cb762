-- ===== src/Protocol/Send.antt =====
-- writeMessage puts one frame into the encode buffer.
use zbluenet.Base.{
  ℕ, ◌+◌, ◌-◌, ◌%◌, ◌^◌, ◌≤◌, ◌<◌, ◌≡◌, refl, sym, ap, ◌∙◌, subst, ◌>>=◌, Bool, true, false, List,
  [], ◌∷◌, ◌++◌, append-nil, none, some, arith, length, take, drop, done, Ends, ends, Ends-bind,
  Ends-map, take-append, take-add, length-append, length-take, length-drop, leb, le→leb, min,
}
use zbluenet.Base.Word.{add_size, sub_size}
use native.Mathlib.Nat.{mod-eq_of_lt}
use zbluenet.Buffer.{Buffer, clear, write, writable_bytes, reserve_writable_bytes}
use zbluenet.Buffer.Invariant.{IsValid, contents, store-done, max_size}
use zbluenet.Buffer.Fifo.{written}
use zbluenet.Buffer.Integers.{bytes16, write_with, write_int16}
use zbluenet.Buffer.Integers.Laws.{int16, length-bytes_of}
use zbluenet.Protocol.{MessageApi, write_message, Received, message_ready, recv_message}
use zbluenet.Protocol.Frames.{
  frame_bytes, opened, Sent, IsSound, parse, Agrees, frame, parse-sent_bytes, recv_message_refines,
}

-- A write with room for it stores its bytes at the write index.
write_with-room :
    (n : ℕ) (bytes : List ℕ) (b : Buffer)
    → length bytes ≡ n
    → b.write_index + n ≤ length b.buffer
    → length b.buffer ≤ max_size
    → write_with n bytes b ≡ done (written b bytes)
unfolding write_with reserve_writable_bytes write
write_with-room n bytes b len room small =
    let enough : leb n (writable_bytes b) ≡ true = le→leb n (writable_bytes b) (omega arith) in
    let rest = drop (b.write_index + length bytes) b.buffer in
    let same : length (take b.write_index b.buffer ++ (bytes ++ rest)) ≡ length b.buffer = omega (
      arith,
      length-append (take b.write_index b.buffer) (bytes ++ rest),
      length-append bytes rest,
      length-take b.write_index b.buffer,
      length-drop (b.write_index + length bytes) b.buffer,
    ) in
    let index : add_size b.write_index
          (min n (sub_size (length (take b.write_index b.buffer ++ (bytes ++ rest))) b.write_index))
        ≡ b.write_index + length bytes =
      omega (arith, same) in
    rw (enough, store-done b.buffer b.write_index bytes (omega arith), index)

-- The storage after the id, the payload and the length have been put, in this order.
frame_layout :
    (header length_bytes payload storage : List ℕ)
    → length header ≡ 2
    → length length_bytes ≡ 2
    → 4 + length payload ≤ length storage
    → let first = header ++ drop 2 storage in
      let second = take 4 first ++ (payload ++ drop (4 + length payload) first) in
      let third = take 2 second ++ (length_bytes ++ drop 4 second) in
      take (4 + length payload) third ≡ header ++ (length_bytes ++ payload)
frame_layout (a ∷ b ∷ []) (c ∷ d ∷ []) payload (s ∷ t ∷ u ∷ w ∷ storage) h l room =
    let n = length payload in
    let first = a ∷ b ∷ u ∷ w ∷ storage in
    take-add 4 n (a ∷ b ∷ c ∷ d ∷ (payload ++ drop (4 + n) first))
    ∙ ap (λ q. a ∷ b ∷ c ∷ d ∷ q) (take-append n payload (drop (4 + n) first) refl)
frame_layout header length_bytes payload storage h l room = absurd (omega arith)

write_int16-room :
    (v : ℕ) (b : Buffer)
    → b.write_index + 2 ≤ length b.buffer
    → length b.buffer ≤ max_size
    → write_int16 b v false
      ≡ done (record b {
        buffer =
            take b.write_index b.buffer ++ (bytes16 false v ++ drop (b.write_index + 2) b.buffer);
        write_index = b.write_index + 2;
      })
unfolding write_int16
write_int16-room v b room small =
    write_with-room 2 (bytes16 false v) b (length-bytes_of int16 false v) room small
    ∙ ap
        (λ k. done (record b {
          buffer =
              take b.write_index b.buffer ++ (bytes16 false v ++ drop (b.write_index + k) b.buffer);
          write_index = b.write_index + k;
        }))
        (length-bytes_of int16 false v)

module _ (api : MessageApi) where
  open api use {Message, encode}

  -- What writeMessage leaves: `true`, and exactly the frame.
  pub record Framed (message_id : ℕ) (payload : List ℕ) (b : Buffer) (out : Bool × Buffer)
      : Type 0 where
    pub succeeded : out.0 ≡ true
    pub valid : IsValid out.1
    pub kept : length out.1.buffer ≡ length b.buffer
    pub framed : contents out.1 ≡ frame_bytes (message_id % 2 ^ 16) payload

  -- writeMessage on a valid encode buffer of at least 4 and fewer than 65540 bytes: if the message
  -- encodes into the room that is left after a header of 4 bytes, the result is `true` and the
  -- buffer holds exactly its frame, whatever it held before.
  pub write_message_lem :
      (message_id : ℕ) (m : Message) (b : Buffer) (payload : List ℕ)
      → IsValid b
      → 4 ≤ length b.buffer
      → length b.buffer < 65540
      → encode m (length b.buffer - 4) ≡ some payload
      → length payload ≤ length b.buffer - 4
      → Ends (Framed message_id payload b) (write_message api message_id m b)
  unfolding write_message clear write
  write_message_lem message_id m b payload v lower upper encoded fits =
      let header = bytes16 false (message_id % 2 ^ 16) in
      let n = length payload in
      let small : n < 2 ^ 16 = omega arith in
      let size = bytes16 false n in
      let storage = b.buffer in
      let first = header ++ drop 2 storage in
      let second = take 4 first ++ (payload ++ drop (4 + n) first) in
      let third = take 2 second ++ (size ++ drop 4 second) in
      let two : length header ≡ 2 = length-bytes_of int16 false (message_id % 2 ^ 16) in
      let two' : length size ≡ 2 = length-bytes_of int16 false n in
      let len1 : length first ≡ length storage =
        omega (arith, length-append header (drop 2 storage), length-drop 2 storage) in
      let len2 : length second ≡ length storage = omega (
        arith,
        length-append (take 4 first) (payload ++ drop (4 + n) first),
        length-append payload (drop (4 + n) first),
        length-take 4 first,
        length-drop (4 + n) first,
      ) in
      let len3 : length third ≡ length storage = omega (
        arith,
        length-append (take 2 second) (size ++ drop 4 second),
        length-append size (drop 4 second),
        length-take 2 second,
        length-drop 4 second,
      ) in
      let room : sub_size (sub_size (length first) 2) 2 ≡ length storage - 4 =
        omega (arith, len1, v.small) in
      let index : add_size 4 (min n (sub_size (length third) 4)) ≡ 4 + n = omega (arith, len3) in
      rw
        (
          write_int16-room (message_id % 2 ^ 16) (clear b) (omega arith) v.small,
          room,
          encoded,
          store-done first 4 payload (omega (arith, len1)),
          mod-eq_of_lt small,
          write_int16-room n (record b { buffer = second; read_index = 0; write_index = 2 })
              (omega (arith, len2)) (omega (arith, len2, v.small)),
          index,
        )
        (ends (record {
          succeeded = refl;
          valid = record {
            ordered = omega arith;
            inside = omega (arith, len3);
            small = omega (arith, len3, v.small);
            expands = v.expands;
            expands_small = v.expands_small;
          };
          kept = len3;
          framed =
              ap (λ k. take k third) {x = 4 + n - 0} (omega arith)
              ∙ frame_layout header size payload storage two two' (omega arith);
        }))

  -- writeMessage reports a message that does not encode.
  pub record NotFramed (b : Buffer) (out : Bool × Buffer) : Type 0 where
    pub refused : out.0 ≡ false
    pub valid : IsValid out.1
    pub kept : length out.1.buffer ≡ length b.buffer

  pub write_message-fails :
      (message_id : ℕ) (m : Message) (b : Buffer)
      → IsValid b
      → 4 ≤ length b.buffer
      → encode m (length b.buffer - 4) ≡ none
      → Ends (NotFramed b) (write_message api message_id m b)
  unfolding write_message clear
  write_message-fails message_id m b v lower failed =
      let header = bytes16 false (message_id % 2 ^ 16) in
      let first = header ++ drop 2 b.buffer in
      let len1 : length first ≡ length b.buffer = omega (
        arith,
        length-append header (drop 2 b.buffer),
        length-drop 2 b.buffer,
        length-bytes_of int16 false (message_id % 2 ^ 16),
      ) in
      let room : sub_size (sub_size (length first) 2) 2 ≡ length b.buffer - 4 =
        omega (arith, len1, v.small) in
      rw (write_int16-room (message_id % 2 ^ 16) (clear b) (omega arith) v.small, room, failed)
        (ends (record {
          refused = refl;
          valid = record {
            ordered = omega arith;
            inside = omega (arith, len1);
            small = omega (arith, len1, v.small);
            expands = v.expands;
            expands_small = v.expands_small;
          };
          kept = len1;
        }))

  -- What recvMessage does with the frame that writeMessage made.
  pub record Reread (max_packet_length message_id : ℕ) (m : Message)
      (out : Received Message × Buffer) : Type 0 where
    pub ready : out.0 ≡ message_ready message_id m
    pub emptied : contents out.1 ≡ []

  -- A message with a 16-bit id, whose encoding fits the packet limit and an encode buffer of 4 to
  -- 65539 bytes, and is opened by the factory and `decode` as `m'`: writeMessage and then
  -- recvMessage on the same buffer return the id and `m'` and leave nothing behind.
  pub recv_message-write_message :
      (max_packet_length message_id : ℕ) (m m' : Message) (b : Buffer) (payload : List ℕ)
      → IsValid b
      → 4 ≤ length b.buffer
      → length b.buffer < 65540
      → message_id < 2 ^ 16
      → encode m (length b.buffer - 4) ≡ some payload
      → length payload ≤ length b.buffer - 4
      → length payload + 4 ≤ max_packet_length
      → opened api max_packet_length message_id payload ≡ some m'
      → Ends (Reread max_packet_length message_id m') (
          write_message api message_id m b >>= λ (done_so, r). recv_message api max_packet_length r)
  recv_message-write_message max_packet_length message_id m m' b payload v lower upper small encoded
        fits within opens =
      Ends-bind (write_message_lem message_id m b payload v lower upper encoded fits) λ (ok, r) s.
        let sent : Sent api max_packet_length = record {
          message_id = message_id;
          payload = payload;
          body = m';
        } in
        let sound : IsSound api max_packet_length sent = record {
          id_fits = small;
          length_fits = omega arith;
          within = within;
          opens = opens;
        } in
        let parsed : parse api max_packet_length (contents r) ≡ frame message_id m' [] =
          ap (parse api max_packet_length) (
            s.framed
            ∙ ap (λ k. frame_bytes k payload) (mod-eq_of_lt small)
            ∙ sym (append-nil (frame_bytes message_id payload)))
          ∙ parse-sent_bytes api max_packet_length sent [] sound in
        Ends-map (recv_message_refines api max_packet_length r s.valid) λ out agrees.
          let (ready, _, rest, _, _) =
            subst (λ t. Agrees api max_packet_length r t out) parsed agrees in
          record { ready = ready; emptied = rest }
