-- ===== src/NetThread.antt =====
-- NetThread (zbluenet/zbluenet/src/zbluenet/net/net_thread.{h,cc}): a reactor, the protocol that
-- encodes the messages that it sends, and the commands that the service hands it. `told` are the
-- commands handed to `new_net_cmd_cb_`, in order. The set of the sockets that get broadcasts is
-- kept in ascending order, as std::set does. What the operating system answers while a command
-- is handled is a `Round`.
pub mod Encoding
pub mod Sets
pub mod Broadcasts
pub mod Commands
pub mod Loop
pub mod Sessions
pub mod Tests
use zbluenet.Base.{
  ℕ, suc, Bool, true, false, not, List, [], ◌∷◌, ◌++◌, Option, none, some, Outcome, done, fault,
  ◌>>=◌, ◌==◌, ltb, if◌then◌else◌,
}
use zbluenet.Base.Int.{ℤ}
use zbluenet.Time.{Timestamp}
use zbluenet.Buffer.{Buffer, load, readable_bytes}
use zbluenet.Protocol.{
  MessageApi, NetId, NetCommand, CommandType, new, message, enable_broadcast, disable_broadcast,
  broadcast, close, write_message,
}
use zbluenet.Connection.{SendResult}
use zbluenet.Reactor
use zbluenet.Reactor.{
  Reactor, attach_socket, is_connected_socket, send_message_to, start_timer, stop_timer,
}

-- The clock, and what `::send` answers for each socket to the bytes that it is given.
pub record Round : Type 0 where
  pub now : Timestamp
  pub answer : ℕ → List ℕ → SendResult

-- `insert` and `erase` of std::set.
abbrev pub insert : ℕ → List ℕ → List ℕ
insert x [] = x ∷ []
insert x (y ∷ ys) =
    let rest = insert x ys in if ltb x y then x ∷ y ∷ ys else if x == y then y ∷ ys else y ∷ rest

abbrev pub erase : ℕ → List ℕ → List ℕ
erase x [] = []
erase x (y ∷ ys) = let rest = erase x ys in if x == y then ys else y ∷ rest

module _ (api : MessageApi) where
  open api use {Message}

  pub record NetThread : Type 0 where
    pub id : ℕ
    pub reactor : Reactor
    pub quit : Bool
    pub encode_buffer : Buffer
    pub broadcast_list : List ℕ
    pub told : List (NetCommand Message)

  -- `NetCommand(type)` with the ids set.
  abbrev pub command : CommandType → ℕ → ℕ → NetCommand Message
  command type reactor_id socket_id = record {
    type = type;
    id = record { reactor_id = reactor_id; socket_id = socket_id };
    message_id = 0;
    body = none;
  }

  unfoldable pub send_net_command_close : ℕ → NetThread → NetThread
  send_net_command_close socket_id t = record t {
    told = t.told ++ command close t.id socket_id ∷ [];
  }

  unfoldable pub send_net_command_new : ℕ → NetThread → NetThread
  send_net_command_new socket_id t = record t { told = t.told ++ command new t.id socket_id ∷ [] }

  unfoldable pub close_socket : ℕ → NetThread → NetThread
  unfolding send_net_command_close
  close_socket socket_id t =
      let told_so = send_net_command_close socket_id t in
      record told_so { reactor = Reactor.close socket_id told_so.reactor }

  -- On Linux attachSocket is that of EpollReactor, which adds the socket only if the poller
  -- watches it: `watched` is what attachIOService answers. The result is not looked at.
  unfoldable pub attach : Bool → ℕ → NetThread → NetThread
  unfolding send_net_command_new
  attach watched socket_id t =
      send_net_command_new socket_id (record t {
        reactor = if watched then (attach_socket socket_id t.reactor).1 else t.reactor;
      })

  unfoldable pub on_peer_close : ℕ → NetThread → NetThread
  unfolding close_socket
  on_peer_close socket_id t = close_socket socket_id t

  unfoldable pub on_error : ℕ → ℕ → NetThread → NetThread
  unfolding close_socket
  on_error socket_id error t = close_socket socket_id t

  -- `sendMessage(socket_id, encode_buffer_.readBegin(), encode_buffer_.readableBytes())`.
  unfoldable pub send_encoded : Round → ℕ → NetThread → Outcome NetThread
  send_encoded round socket_id t = do
    let b = t.encode_buffer
    frame ← load b.buffer b.read_index (readable_bytes b)
    sent ← send_message_to round.now socket_id frame none (round.answer socket_id frame) t.reactor
    done (record t { reactor = sent.1 })

  unfoldable pub send_to_all : Round → List ℕ → NetThread → Outcome NetThread
  unfolding send_encoded
  send_to_all round [] t = done t
  send_to_all round (socket_id ∷ rest) t = send_encoded round socket_id t >>= send_to_all round rest

  -- `writeMessage(cmd->message_id, cmd->message, &encode_buffer_)`. A null message is dereferenced.
  unfoldable pub encode_command : NetCommand Message → NetThread → Outcome (Bool × NetThread)
  encode_command cmd t = elim cmd.body [
    | none ↦ fault
    | some m ↦ do
      written ← write_message api cmd.message_id m t.encode_buffer
      done (written.0, record t { encode_buffer = written.1 })
  ]

  unfoldable pub on_broadcast : Round → NetCommand Message → NetThread → Outcome NetThread
  unfolding encode_command send_to_all
  on_broadcast round cmd t = do
    encoded ← encode_command cmd t
    if encoded.0 then send_to_all round encoded.1.broadcast_list encoded.1 else done encoded.1

  unfoldable pub on_message : Round → NetCommand Message → NetThread → Outcome NetThread
  unfolding encode_command send_encoded close_socket
  on_message round cmd t = do
    encoded ← encode_command cmd t
    if encoded.0
        then send_encoded round cmd.id.socket_id encoded.1
        else done (close_socket cmd.id.socket_id encoded.1)

  -- What is done for a command of a type that is not a broadcast, on a connected socket.
  unfoldable pub on_socket_command :
      CommandType → Round → NetCommand Message → NetThread → Outcome NetThread
  unfolding on_message
  on_socket_command close round cmd t =
      done (record t { reactor = Reactor.close cmd.id.socket_id t.reactor })
  on_socket_command message round cmd t = on_message round cmd t
  on_socket_command enable_broadcast round cmd t =
      done (record t { broadcast_list = insert cmd.id.socket_id t.broadcast_list })
  on_socket_command disable_broadcast round cmd t =
      done (record t { broadcast_list = erase cmd.id.socket_id t.broadcast_list })
  on_socket_command new round cmd t = done t
  on_socket_command broadcast round cmd t = done t

  unfoldable pub process_as :
      CommandType → Round → NetCommand Message → NetThread → Outcome NetThread
  unfolding on_broadcast on_socket_command
  process_as broadcast round cmd t = on_broadcast round cmd t
  process_as type round cmd t =
      if is_connected_socket cmd.id.socket_id t.reactor
      then on_socket_command type round cmd t
      else done t

  -- A round of onNetCommand's loop.
  unfoldable pub process : Round → NetCommand Message → NetThread → Outcome NetThread
  unfolding process_as
  process round cmd t = process_as cmd.type round cmd t

  -- onNetCommand over the items that are in the queue, `none` for a null pointer: the thread and
  -- the items that stay. Those that are pushed meanwhile are at the end of the list.
  unfoldable pub on_net_command :
      (ℕ → Round)
      → List (Option (NetCommand Message))
      → NetThread
      → Outcome (NetThread × List (Option (NetCommand Message)))
  unfolding process
  on_net_command rounds [] t = done (t, [])
  on_net_command rounds (none ∷ queue) t = done (record t { quit = true }, queue)
  on_net_command rounds (some cmd ∷ queue) t =
      process (rounds 0) cmd t >>= on_net_command (λ n. rounds (suc n)) queue

  unfoldable pub start_timer_of : Timestamp → ℤ → ℤ → NetThread → Outcome (ℤ × NetThread)
  start_timer_of now timeout_ms call_times t =
      start_timer now timeout_ms call_times t.reactor >>= λ (id, r).
      done (id, record t { reactor = r })

  unfoldable pub stop_timer_of : ℤ → NetThread → Outcome NetThread
  stop_timer_of timer_id t = stop_timer timer_id t.reactor >>= λ r. done (record t { reactor = r })
