-- ===== src/NetThread/Encoding.antt =====
-- What a net thread keeps, and its encoding and sending of one message.
use zbluenet.Base.{
  ℕ, ◌+◌, ◌-◌, ◌%◌, ◌^◌, ◌≤◌, ◌<◌, ◌≡◌, refl, subst, arith, Bool, true, false, List, [], ◌∷◌, none,
  some, inl, inr, length, All, Ends, ends, Ends-bind, Option-cases,
}
use zbluenet.Time.Laws.{IsNormal}
use zbluenet.Buffer.{Buffer, readable_bytes}
use zbluenet.Buffer.Invariant.{IsValid, contents, load-done, length-contents}
use zbluenet.Connection.{Connection, SendResult, took, send_failed}
use zbluenet.Connection.Sending.{accepted}
use zbluenet.Protocol.{MessageApi, NetCommand}
use zbluenet.Protocol.Frames.{frame_bytes}
use zbluenet.Protocol.Send.{write_message_lem, write_message-fails}
use zbluenet.Reactor.Delivery.{Delivered, send_message_to_lem}
use zbluenet.Reactor.Running.{IsRunning}
use zbluenet.NetThread.{Round, NetThread, encode_command, send_encoded}

-- The ids of a std::set in its order.
abbrev pub IsAscending : List ℕ → Type 0
IsAscending [] = Unit
IsAscending (x ∷ xs) = All (λ y. x < y) xs × IsAscending xs

-- The clock is a time, and a socket takes no more than it is given.
pub record IsRound (round : Round) : Type 0 where
  pub normal : IsNormal round.now
  pub honest : (id : ℕ) (m : List ℕ) (k : ℕ) → round.answer id m ≡ took k → k ≤ length m

-- `encode` of a message class writes no more than the room that it is given.
abbrev pub Fits : MessageApi → Type 0
Fits api =
    (m : api.Message) (room : ℕ) (bytes : List ℕ)
    → api.encode m room ≡ some bytes
    → length bytes ≤ room

pub honest_of :
    (round : Round) (id : ℕ) (m : List ℕ) (answer : SendResult)
    → round.answer id m ≡ answer
    → IsRound round
    → (c : Connection) → accepted answer c ≤ length m
honest_of round id m (took k) e v c = ground (arith, v.honest id m k e)
honest_of round id m (send_failed errno) e v c = omega arith

module _ (api : MessageApi) where
  open api use {Message, encode}

  pub record IsAlive (t : NetThread api) : Type 0 where
    pub running : IsRunning t.reactor
    pub encodes : IsValid t.encode_buffer
    pub lower : 4 ≤ length t.encode_buffer.buffer
    pub upper : length t.encode_buffer.buffer < 65540
    pub ascending : IsAscending t.broadcast_list

  -- The room that a message is encoded into.
  abbrev pub room_of : NetThread api → ℕ
  room_of t = length t.encode_buffer.buffer - 4

  with_buffer :
      (t : NetThread api)
      → IsAlive t
      → (b : Buffer) → IsValid b
      → length b.buffer ≡ length t.encode_buffer.buffer
      → IsAlive (record t { encode_buffer = b })
  with_buffer t v b valid kept = record {
    running = v.running;
    encodes = valid;
    lower = omega (arith, v.lower, kept);
    upper = omega (arith, v.upper, kept);
    ascending = v.ascending;
  }

  -- The encode buffer holds the frame of the command's message, or the encoding failed; nothing
  -- else has changed.
  pub record Encoded (cmd : NetCommand Message) (m : Message) (t : NetThread api)
      (out : Bool × NetThread api) : Type 0 where
    pub alive : IsAlive out.1
    pub same : out.1 ≡ record t { encode_buffer = out.1.encode_buffer }
    pub result :
        (payload : List ℕ)
        → encode m (room_of t) ≡ some payload
        → (out.0 ≡ true)
          × (contents out.1.encode_buffer ≡ frame_bytes (cmd.message_id % 2 ^ 16) payload)
    pub failed : encode m (room_of t) ≡ none → out.0 ≡ false

  pub encode_command_lem :
      (cmd : NetCommand Message) (m : Message) (t : NetThread api)
      → Fits api
      → IsAlive t
      → cmd.body ≡ some m
      → Ends (Encoded cmd m t) (encode_command api cmd t)
  unfolding encode_command
  encode_command_lem cmd m t fits v has = elim (Option-cases (encode m (room_of t))) [
    | inl failed ↦
        rw (has, encode_command)
          (Ends-bind
            (write_message-fails api cmd.message_id m t.encode_buffer v.encodes v.lower failed)
            λ out q. ends (record {
              alive = with_buffer t v out.1 q.valid q.kept;
              same = refl;
              result = λ payload e. absurd (grind (arith, e, failed));
              failed = λ _. q.refused;
            }))
    | inr (bytes, encoded) ↦
        rw (has, encode_command)
          (Ends-bind
            (write_message_lem api cmd.message_id m t.encode_buffer bytes v.encodes v.lower v.upper
              encoded (fits m (room_of t) bytes encoded))
            λ out q. ends (record {
              alive = with_buffer t v out.1 q.valid q.kept;
              same = refl;
              result = λ payload e.
                  let same : bytes ≡ payload = grind (arith, e, encoded) in
                  (
                    q.succeeded,
                    subst (λ x. contents out.1 ≡ frame_bytes (cmd.message_id % 2 ^ 16) x) same
                        q.framed,
                  );
              failed = λ e. absurd (grind (arith, e, encoded));
            }))
  ]

  -- What sendMessage with the encoded frame leaves.
  pub record SentOne (round : Round) (id : ℕ) (t u : NetThread api) : Type 0 where
    pub alive : IsAlive u
    pub same : u ≡ record t { reactor = u.reactor }
    pub delivered :
        (ok : Bool) × Delivered id
          (contents t.encode_buffer)
          (round.answer id (contents t.encode_buffer))
          t.reactor
          (ok, u.reactor)

  pub send_encoded_lem :
      (round : Round) (id : ℕ) (t : NetThread api)
      → IsRound round
      → IsAlive t
      → t.reactor.timer_heap.timer_id + 1 < 2 ^ 63
      → Ends (SentOne round id t) (send_encoded api round id t)
  unfolding send_encoded
  send_encoded_lem round id t h v room =
      let b = t.encode_buffer in
      let readable : readable_bytes b ≡ b.write_index - b.read_index =
        omega (arith, v.encodes.ordered, v.encodes.inside, v.encodes.small) in
      let inside : b.read_index + (b.write_index - b.read_index) ≤ length b.buffer =
        omega (arith, v.encodes.ordered, v.encodes.inside) in
      rw (readable, load-done b.buffer b.read_index (b.write_index - b.read_index) inside)
        (Ends-bind
          (send_message_to_lem round.now id (contents b) (round.answer id (contents b)) t.reactor
            v.running h.normal room
            (λ c _. honest_of round id (contents b) (round.answer id (contents b)) refl h c)
            (omega (arith, length-contents b v.encodes, v.encodes.inside, v.upper)))
          λ out q. ends (record {
            alive = record {
              running = q.running;
              encodes = v.encodes;
              lower = v.lower;
              upper = v.upper;
              ascending = v.ascending;
            };
            same = refl;
            delivered = (out.0, q);
          }))
