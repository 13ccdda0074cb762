-- ===== src/Client.antt =====
-- NetClientThread (zbluenet/zbluenet/src/zbluenet/client/net_client_thread.{h,cc}): a net thread
-- with one connection, which it opens again after a while when it is closed. The socket id -1 is a
-- bit pattern. What `activeOpenNonblock` answers, a descriptor or nothing, is an argument, and so
-- are the clock and the answers of `::send`.
pub mod Reconnect
pub mod Loop
pub mod Receiving
pub mod Dispatch
mod Commands
mod Timer
mod Tests
use zbluenet.Base.{
  ℕ, zero, suc, Bool, true, false, List, [], ◌∷◌, Option, none, some, Outcome, done, fault, ◌>>=◌,
  ◌==◌, if◌then◌else◌,
}
use zbluenet.Base.Int.{ℤ, pos, negsuc, same_int}
use zbluenet.Time.{Timestamp}
use zbluenet.Buffer.{Buffer, load, readable_bytes}
use zbluenet.Protocol.{
  MessageApi, NetCommand, CommandType, new, message, enable_broadcast, disable_broadcast, broadcast,
  close, minus_one64, Received, waiting_more_data, err, message_ready, recv_message,
}
use zbluenet.SocketIds.{next_id}
use zbluenet.Reactor.{send_message_to}
use zbluenet.NetThread.{
  Round, NetThread, attach, close_socket, start_timer_of, stop_timer_of, encode_command,
}

-- What the constructor gives `net_protocol_`.
abbrev pub max_packet_length : ℕ
max_packet_length = 40960

abbrev pub minus_one : ℤ
minus_one = negsuc 0

module _ (api : MessageApi) where
  open api use {Message}

  pub record Client : Type 0 where
    pub thread : NetThread api
    pub connected : Bool
    pub reconnect_interval_ms : ℕ
    pub socket_id : ℕ
    pub reconnect_timer : ℤ
    -- The counter of `socket_id_allocator_`.
    pub id_value : ℕ

  -- The timer's id is kept in `reconnect_timer_`.
  unfoldable pub stop_connect_timer : Client → Outcome Client
  unfolding stop_timer_of
  stop_connect_timer c =
      if same_int c.reconnect_timer minus_one
      then done c
      else (stop_timer_of api c.reconnect_timer c.thread >>= λ t. done (record c { thread = t }))

  unfoldable pub start_connect_timer : Timestamp → Client → Outcome Client
  unfolding stop_connect_timer start_timer_of
  start_connect_timer now c = stop_connect_timer c >>= λ d.
      start_timer_of api now (pos d.reconnect_interval_ms) (pos 1) d.thread >>= λ (id, t).
      done (record d { thread = t; reconnect_timer = id })

  unfoldable pub connect : Timestamp → Option ℕ → Bool → Client → Outcome (Bool × Client)
  unfolding start_connect_timer attach next_id
  connect now none watched c = start_connect_timer now c >>= λ d. done (false, d)
  connect now (some fd) watched c = next_id c.id_value fd >>= λ (id, value). done (
    true,
    record c {
      socket_id = id;
      id_value = value;
      connected = true;
      thread = attach api watched id c.thread;
    },
  )

  unfoldable pub disconnect : Client → Client
  unfolding close_socket
  disconnect c =
      if c.connected
      then record c {
        thread = close_socket api c.socket_id c.thread;
        connected = false;
        socket_id = minus_one64;
      }
      else c

  unfoldable pub on_timer : Timestamp → Option ℕ → Bool → ℤ → Client → Outcome Client
  unfolding connect
  on_timer now opened watched timer_id c =
      if same_int timer_id c.reconnect_timer
      then (connect now opened watched (record c { reconnect_timer = minus_one }) >>= λ r. done r.1)
      else done c

  unfoldable pub on_close : Timestamp → Client → Outcome Client
  unfolding disconnect start_connect_timer
  on_close now c = start_connect_timer now (disconnect c)

  unfoldable pub on_peer_close : Timestamp → ℕ → Client → Outcome Client
  unfolding on_close
  on_peer_close now socket_id c = on_close now c

  unfoldable pub on_error : Timestamp → ℕ → ℕ → Client → Outcome Client
  unfolding on_close
  on_error now socket_id error c = on_close now c

  unfoldable pub stop : Client → Outcome Client
  unfolding stop_connect_timer disconnect
  stop c = stop_connect_timer c >>= λ d. done (disconnect d)

  -- onRecvMessage returns, or it calls `new_net_cmd_cb_` with a command. The client has a member of
  -- that name, which nothing sets, and a call of an empty std::function throws.
  pub data Drained : Type 0 where
    returned : Client → Buffer → Drained
    bad_function_call : NetCommand Message → Buffer → Drained

  after_recv : Timestamp → Client → Received Message × Buffer → Outcome Drained
  unfolding disconnect start_connect_timer
  after_recv now c (waiting_more_data, b) = done (returned c b)
  after_recv now c (err, b) = start_connect_timer now (disconnect c) >>= λ d. done (returned d b)
  after_recv now c (message_ready message_id m, b) = done (
      bad_function_call
        (record {
          type = message;
          id = record { reactor_id = c.thread.id; socket_id = c.socket_id };
          message_id = message_id;
          body = some m;
        })
        b)

  unfoldable pub on_recv_message : Timestamp → Buffer → Client → Outcome Drained
  unfolding after_recv
  on_recv_message now b c = recv_message api max_packet_length b >>= after_recv now c

  -- The call of sendMessage with the frame that is encoded.
  unfoldable pub send_frame : Round → Client → Outcome (Bool × Client)
  send_frame round c = do
    let b = c.thread.encode_buffer
    frame ← load b.buffer b.read_index (readable_bytes b)
    sent ←
        send_message_to round.now c.socket_id frame none (round.answer c.socket_id frame)
          c.thread.reactor
    done (sent.0, record c { thread = record (c.thread) { reactor = sent.1 } })

  -- A call that failed closes the connection, and the loop ends.
  unfoldable pub on_failure : Round → Client → Outcome (Bool × Client)
  unfolding on_close
  on_failure round c = on_close round.now c >>= λ d. done (false, d)

  -- A MESSAGE: whether the loop goes on, and the client.
  unfoldable pub send_command : Round → NetCommand Message → Client → Outcome (Bool × Client)
  unfolding encode_command send_frame on_failure
  send_command round cmd c = do
    encoded ← encode_command api cmd c.thread
    let d = record c { thread = encoded.1 }
    let unsent = on_failure round d
    let sending = do
      sent ← send_frame round d
      let refused = on_failure round sent.1
      if sent.0 then done (true, sent.1) else refused
    if encoded.0 then sending else unsent

  unfoldable pub process_as :
      CommandType → Round → NetCommand Message → Client → Outcome (Bool × Client)
  unfolding send_command
  process_as message round cmd c = send_command round cmd c
  process_as _ round cmd c = done (true, c)

  -- onNetCommand: the client and the items that stay in the queue.
  unfoldable pub on_net_command :
      (ℕ → Round)
      → List (Option (NetCommand Message))
      → Client
      → Outcome (Client × List (Option (NetCommand Message)))
  unfolding process_as
  on_net_command rounds [] c = done (c, [])
  on_net_command rounds (none ∷ queue) c =
      done (record c { thread = record (c.thread) { quit = true } }, queue)
  on_net_command rounds (some cmd ∷ queue) c = do
    r ← process_as cmd.type (rounds 0) cmd c
    let later = on_net_command (λ n. rounds (suc n)) queue r.1
    if r.0 then later else done (r.1, queue)
