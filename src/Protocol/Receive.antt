-- ===== src/Protocol/Receive.antt =====
-- The loop of onRecvMessage: it ends, and it hands over the messages of the buffer in order.
use zbluenet.Base.{
  ℕ, zero, suc, ◌≤◌, ◌<◌, ◌≡◌, refl, ap, ◌∙◌, subst, Bool, true, false, List, [], ◌∷◌, ◌++◌,
  append_assoc, Option, none, some, arith, length, length-append, All, if◌then◌else◌, Outcome, Ends,
  ends, Ends-bind, Ends-inv,
}
use zbluenet.Buffer.{Buffer, readable_bytes}
use zbluenet.Buffer.Invariant.{IsValid, contents, length-contents}
use zbluenet.Protocol.{
  MessageApi, NetId, NetCommand, Received, err, waiting_more_data, Drained, recv_loop,
  on_recv_message, command_of, with_command, recv_round,
}
use zbluenet.Protocol.Frames.{
  Parsed, failed, more, frame, parse, Agrees, recv_message_refines, Sent, IsSound, sent_bytes,
  length-sent_bytes, parse-sent_bytes, parse-shorter,
}

module _ (api : MessageApi) (max_packet_length : ℕ) (id : NetId) where
  open api use {Message}

  -- The bytes of messages sent one after the other.
  abbrev pub stream : List (Sent api max_packet_length) → List ℕ
  stream [] = []
  stream (s ∷ ss) = sent_bytes api max_packet_length s ++ stream ss

  -- The commands that they become.
  abbrev pub commands_of : List (Sent api max_packet_length) → List (NetCommand Message)
  commands_of [] = []
  commands_of (s ∷ ss) = command_of api id s.message_id s.body ∷ commands_of ss

  -- What stays behind: the socket is closed exactly on bytes that cannot be a frame.
  pub record Delivered (b : Buffer) (sent : List (Sent api max_packet_length)) (stop : Bool)
      (left : List ℕ) (d : Drained api) : Type 0 where
    pub delivered : d.commands ≡ commands_of sent
    pub closes : d.closed ≡ stop
    pub valid : IsValid d.buffer
    pub kept : contents d.buffer ≡ left
    pub stored : d.buffer.buffer ≡ b.buffer
    pub expand_kept : d.buffer.expand_size ≡ b.expand_size

  abbrev pub Yields : (Drained api → Type 0) → Option (Drained api) → Type 0
  Yields P none = ⊥
  Yields P (some d) = P d

  with_command_delivers :
      (s : Sent api max_packet_length) (ss : List (Sent api max_packet_length)) (b r : Buffer)
      (left : List ℕ) (stop : Bool) (found : Option (Drained api))
      → r.buffer ≡ b.buffer
      → r.expand_size ≡ b.expand_size
      → Yields (Delivered r ss stop left) found
      → Yields
          (Delivered b (s ∷ ss) stop left)
          (with_command api (command_of api id s.message_id s.body) found)
  unfolding with_command
  with_command_delivers s ss b r left stop none stored kept d = absurd d
  with_command_delivers s ss b r left stop (some o) stored kept d = record {
    delivered = ap (◌∷◌ (command_of api id s.message_id s.body)) d.delivered;
    closes = d.closes;
    valid = d.valid;
    kept = d.kept;
    stored = d.stored ∙ stored;
    expand_kept = d.expand_kept ∙ kept;
  }

  length-stream : (sent : List (Sent api max_packet_length)) → length sent ≤ length (stream sent)
  length-stream [] = omega arith
  length-stream (s ∷ ss) = omega (
    arith,
    length-append (sent_bytes api max_packet_length s) (stream ss),
    length-sent_bytes api max_packet_length s,
    length-stream ss,
  )

  recv_loop_delivers :
      (sent : List (Sent api max_packet_length)) (fuel : ℕ) (b : Buffer) (left : List ℕ)
      (stop : Bool)
      → length sent < fuel
      → IsValid b
      → All (IsSound api max_packet_length) sent
      → contents b ≡ stream sent ++ left
      → parse api max_packet_length left ≡ (if stop then failed else more)
      → Ends (Yields (Delivered b sent stop left)) (recv_loop api fuel max_packet_length id b)
  unfolding recv_loop
  recv_loop_delivers sent zero b left stop f v sound e p = absurd (omega arith)
  recv_loop_delivers [] (suc fuel) b left true f v sound e p =
      let (out, ret, agrees) = Ends-inv (recv_message_refines api max_packet_length b v) in
      let out_is : out ≡ (err, b) =
        subst (λ t. Agrees api max_packet_length b t out) (ap (parse api max_packet_length) e ∙ p)
          agrees in
      rw (ret, out_is)
        (ends (record {
          delivered = refl;
          closes = refl;
          valid = v;
          kept = e;
          stored = refl;
          expand_kept = refl;
        }))
  recv_loop_delivers [] (suc fuel) b left false f v sound e p =
      let (out, ret, agrees) = Ends-inv (recv_message_refines api max_packet_length b v) in
      let out_is : out ≡ (waiting_more_data, b) =
        subst (λ t. Agrees api max_packet_length b t out) (ap (parse api max_packet_length) e ∙ p)
          agrees in
      rw (ret, out_is)
        (ends (record {
          delivered = refl;
          closes = refl;
          valid = v;
          kept = e;
          stored = refl;
          expand_kept = refl;
        }))
  recv_loop_delivers (s ∷ ss) (suc fuel) b left stop f v sound e p =
      let ((answer, r), ret, agrees) = Ends-inv (recv_message_refines api max_packet_length b v) in
      let parsed : parse api max_packet_length (contents b)
          ≡ frame s.message_id s.body (stream ss ++ left) =
        ap (parse api max_packet_length)
          (e ∙ append_assoc (sent_bytes api max_packet_length s) (stream ss) left)
        ∙ parse-sent_bytes api max_packet_length s (stream ss ++ left) sound.0 in
      let (ready, valid, rest, stored, kept) =
        subst (λ t. Agrees api max_packet_length b t (answer, r)) parsed agrees in
      let rounds = recv_loop_delivers ss fuel r left stop (omega arith) valid sound.1 rest p in
      rw (ret, ap {B = Received Message × Buffer} (λ t. (t, r)) ready)
        (Ends-bind rounds λ o d. ends (with_command_delivers s ss b r left stop o stored kept d))

  -- onRecvMessage on a valid buffer that holds whole acceptable frames and then bytes that are
  -- less than a frame or cannot be one: it ends, hands over exactly the messages of the frames, in
  -- order, keeps the bytes after them, and closes the socket just if these cannot be a frame.
  pub on_recv_message_delivers :
      (sent : List (Sent api max_packet_length)) (b : Buffer) (left : List ℕ) (stop : Bool)
      → IsValid b
      → All (IsSound api max_packet_length) sent
      → contents b ≡ stream sent ++ left
      → parse api max_packet_length left ≡ (if stop then failed else more)
      → Ends (Yields (Delivered b sent stop left)) (on_recv_message api max_packet_length id b)
  unfolding on_recv_message
  on_recv_message_delivers sent b left stop v sound e p =
      recv_loop_delivers sent (suc (readable_bytes b)) b left stop
        (omega (
          arith,
          length-contents b v,
          ap length e,
          length-append (stream sent) left,
          length-stream sent,
        ))
        v sound e p

  with_command_valid :
      (c : NetCommand Message) (found : Option (Drained api))
      → Yields (λ d. IsValid d.buffer) found
      → Yields (λ d. IsValid d.buffer) (with_command api c found)
  unfolding with_command
  with_command_valid c none y = absurd y
  with_command_valid c (some d) y = y

  recv_round-Ends :
      (again : Buffer → Outcome (Option (Drained api))) (b : Buffer) (t : Parsed Message)
      (out : Received Message × Buffer)
      → IsValid b
      → parse api max_packet_length (contents b) ≡ t
      → Agrees api max_packet_length b t out
      → ((r : Buffer)
          → IsValid r
          → length (contents r) < length (contents b)
          → Ends (Yields (λ d. IsValid d.buffer)) (again r))
      → Ends (Yields (λ d. IsValid d.buffer)) (recv_round api id again out)
  unfolding recv_round
  recv_round-Ends again b failed out v e agrees ih = rw agrees (ends v)
  recv_round-Ends again b more out v e agrees ih = rw agrees (ends v)
  recv_round-Ends again b (frame message_id m rest) (answer, r) v e (ready, valid, kept, _, _) ih =
      rw ready (
        Ends-bind
          (ih r valid (
            omega (
              arith,
              parse-shorter api max_packet_length (contents b) message_id m rest e,
              ap length kept,
            )))
          λ found y. ends (with_command_valid (command_of api id message_id m) found y))

  recv_loop-Ends :
      (fuel : ℕ) (b : Buffer)
      → IsValid b
      → length (contents b) < fuel
      → Ends (Yields (λ d. IsValid d.buffer)) (recv_loop api fuel max_packet_length id b)
  unfolding recv_loop
  recv_loop-Ends zero b v f = absurd (omega arith)
  recv_loop-Ends (suc fuel) b v f =
      Ends-bind (recv_message_refines api max_packet_length b v) λ out agrees.
        recv_round-Ends (recv_loop api fuel max_packet_length id) b
          (parse api max_packet_length (contents b)) out v refl agrees
          (λ r valid less. recv_loop-Ends fuel r valid (omega arith))

  -- onRecvMessage on any valid buffer ends, without an access outside the storage, whatever bytes
  -- it holds, and leaves a valid buffer.
  pub on_recv_message-Ends :
      (b : Buffer)
      → IsValid b
      → Ends (Yields (λ d. IsValid d.buffer)) (on_recv_message api max_packet_length id b)
  unfolding on_recv_message
  on_recv_message-Ends b v =
      recv_loop-Ends (suc (readable_bytes b)) b v (omega (arith, length-contents b v))
