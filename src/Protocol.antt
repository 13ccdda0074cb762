-- ===== src/Protocol.antt =====
-- NetProtocol, NetCommand and NetId (zbluenet/zbluenet/src/zbluenet/protocol/net_protocol.{h,cc},
-- net_command.{h,cc}, zbluenet/zbluenet/src/zbluenet/net/net_id.{h,cc}), and the loop of
-- GameServer::onRecvMessage (server/game_server.cc) that takes messages off a connection's read
-- buffer. `int` and `int64_t` fields are bit patterns, so that -1 is the greatest.
pub mod Frames
pub mod Receive
pub mod Send
mod Tests
use zbluenet.Base.{
  ℕ, zero, suc, ◌+◌, ◌-◌, ◌*◌, ◌/◌, ◌%◌, ◌^◌, ◌≤◌, ◌≡◌, Bool, true, false, ◌&&◌, ◌||◌, List, [],
  ◌∷◌, Option, none, some, length, ltb, ◌==◌, if◌then◌else◌, Outcome, done, ◌>>=◌,
}
use zbluenet.Base.Word.{sub_size}
use zbluenet.Buffer.{Buffer, load, store, clear, read, write, readable_bytes, writable_bytes}
use zbluenet.Buffer.Integers.{peek_int16, write_int16}

pub record NetId : Type 0 where
  pub reactor_id : ℕ
  pub socket_id : ℕ

abbrev pub minus_one32 : ℕ
minus_one32 = 2 ^ 32 - 1

abbrev pub minus_one64 : ℕ
minus_one64 = 2 ^ 64 - 1

-- `NetId()` and `reset()`.
abbrev pub no_id : NetId
no_id = record { reactor_id = minus_one32; socket_id = minus_one64 }

unfoldable pub same_id : NetId → NetId → Bool
same_id a b = (a.reactor_id == b.reactor_id) && (a.socket_id == b.socket_id)

unfoldable pub is_invalid : NetId → Bool
is_invalid a = (a.reactor_id == minus_one32) || (a.socket_id == minus_one64)

pub data CommandType : Type 0 where
  new message enable_broadcast disable_broadcast broadcast close : CommandType

pub record NetCommand (M : Type 0) : Type 0 where
  pub type : CommandType
  pub id : NetId
  pub message_id : ℕ
  pub body : Option M

-- A message class is not the library's own: the factory and the virtual `encode` and `decode` of
-- BaseStruct are parameters. `none` is a null pointer or a negative result. `encode` is given the
-- room, and what it returns are the bytes that it puts there.
pub record MessageApi : Type 1 where
  pub Message : Type 0
  pub create : ℕ → Option Message
  pub encode : Message → ℕ → Option (List ℕ)
  pub decode : Message → List ℕ → Option Message

pub data Received (M : Type 0) : Type 0 where
  err waiting_more_data : Received M
  message_ready : ℕ → M → Received M

module _ (api : MessageApi) where
  open api use {Message, create, encode, decode}

  -- The message is created and decoded, and on success the frame is consumed.
  recv_payload : ℕ → ℕ → Buffer → Outcome (Received Message × Buffer)
  recv_payload message_id message_length b = elim (create message_id) [
    | none ↦ done (err, b)
    | some blank ↦ do
      payload ← load b.buffer (b.read_index + 4) message_length
      elim (decode blank payload) [
        | none ↦ done (err, b)
        | some m ↦ done (message_ready message_id m, read b (message_length + 4))
      ]
  ]

  -- The length checks.
  recv_body : ℕ → ℕ → ℕ → Buffer → Outcome (Received Message × Buffer)
  unfolding recv_payload
  recv_body max_packet_length message_id message_length b =
      if ltb max_packet_length (message_length + 4)
      then done (err, b)
      else if ltb (readable_bytes b) (message_length + 4)
      then done (waiting_more_data, b)
      else recv_payload message_id message_length b

  unfoldable pub recv_message : ℕ → Buffer → Outcome (Received Message × Buffer)
  unfolding recv_body
  recv_message max_packet_length b = do
    id_field ← peek_int16 b 0 false
    elim id_field [
      | none ↦ done (waiting_more_data, b)
      | some message_id ↦ do
        length_field ← peek_int16 b 2 false
        elim length_field [
          | none ↦ done (waiting_more_data, b)
          | some message_length ↦ recv_body max_packet_length message_id message_length b
        ]
    ]

  -- The result is the C++ result and the buffer. `message_id` is cut to 16 bits by `writeInt16`,
  -- and so is the length.
  unfoldable pub write_message : ℕ → Message → Buffer → Outcome (Bool × Buffer)
  write_message message_id m b = do
    headed ← write_int16 (clear b) (message_id % 2 ^ 16) false
    elim (encode m (sub_size (writable_bytes headed) 2)) [
      | none ↦ done (false, headed)
      | some bytes ↦ do
        stored ← store headed.buffer (headed.write_index + 2) bytes
        framed ← write_int16 (record headed { buffer = stored }) (length bytes % 2 ^ 16) false
        done (true, write framed (length bytes))
    ]

  -- What onRecvMessage does on a buffer: the commands that it hands over, in order, whether it
  -- closes the socket, and the buffer that it leaves. `none` is fuel run out.
  pub record Drained : Type 0 where
    pub commands : List (NetCommand Message)
    pub closed : Bool
    pub buffer : Buffer

  abbrev pub command_of : NetId → ℕ → Message → NetCommand Message
  command_of id message_id m = record {
    type = message;
    id = id;
    message_id = message_id;
    body = some m;
  }

  -- A command handed over before those of the rounds to come.
  with_command : NetCommand Message → Option Drained → Option Drained
  with_command c none = none
  with_command c (some d) = some (record d { commands = c ∷ d.commands })

  -- What a round does with the answer of recvMessage; `again` is the rounds to come.
  recv_round :
      NetId
      → (Buffer → Outcome (Option Drained))
      → Received Message × Buffer
      → Outcome (Option Drained)
  unfolding with_command
  recv_round id again (waiting_more_data, r) =
      done (some (record { commands = []; closed = false; buffer = r }))
  recv_round id again (err, r) = done (some (record { commands = []; closed = true; buffer = r }))
  recv_round id again (message_ready message_id m, r) = do
    rounds ← again r
    done (with_command (command_of id message_id m) rounds)

  recv_loop : ℕ → ℕ → NetId → Buffer → Outcome (Option Drained)
  unfolding recv_round
  recv_loop zero max_packet_length id b = done none
  recv_loop (suc fuel) max_packet_length id b =
      recv_message max_packet_length b >>= recv_round id (recv_loop fuel max_packet_length id)

  -- Every message takes 4 bytes at least, so this fuel is enough.
  unfoldable pub on_recv_message : ℕ → NetId → Buffer → Outcome (Option Drained)
  unfolding recv_loop
  on_recv_message max_packet_length id b = recv_loop (suc (readable_bytes b)) max_packet_length id b
