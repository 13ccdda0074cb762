-- ===== src/Service.antt =====
-- TcpService (zbluenet/zbluenet/src/zbluenet/server/tcp_service.{h,cc}), which the main thread
-- runs: the queues of commands of its net threads, what it knows of the connections, the handlers
-- of messages and its timers. A handler is named by a number; `calls` are the calls of handlers so
-- far, in order. `int` counters do not reach their end: see `limit` in Service/Frequency.
pub mod Queues
pub mod Frequency
pub mod Sessions
pub mod Balance
pub mod Delivery
mod Tests
use zbluenet.Base.{
  ℕ, zero, suc, ◌+◌, Bool, true, false, ◌&&◌, List, [], ◌∷◌, ◌++◌, Option, none, some, Outcome,
  done, fault, ◌>>=◌, length, ltb, leb, ◌==◌, if◌then◌else◌,
}
use zbluenet.Base.Int.{ℤ, pos, negsuc}
use zbluenet.Time.{Timestamp}
use zbluenet.Timers.{Impl, add_timer, remove_timer}
use zbluenet.Protocol.{
  MessageApi, NetId, no_id, same_id, NetCommand, CommandType, new, message, enable_broadcast,
  disable_broadcast, broadcast, close,
}

pub record ConnectionInfo : Type 0 where
  pub last_request_second : ℕ
  pub request_per_second : ℕ

abbrev pub update_id {ℓ} : {A : Type ℓ} → (NetId → A) → NetId → A → NetId → A
unfolding same_id
update_id f id a j = if same_id id j then a else f j

-- `max_request_per_second_ > 0`.
abbrev pub is_limited : ℤ → Bool
is_limited (pos n) = ltb 0 n
is_limited (negsuc _) = false

-- `requst_per_second > max_request_per_second_`.
abbrev pub exceeds : ℕ → ℤ → Bool
exceeds n (pos limit) = ltb limit n
exceeds n (negsuc _) = true

unfoldable pub check_request_frequency_limit : ℕ → ℤ → ConnectionInfo → Bool × ConnectionInfo
check_request_frequency_limit now limit info =
    let counted =
      if now == info.last_request_second
      then record info { request_per_second = info.request_per_second + 1 }
      else record { last_request_second = now; request_per_second = 0 } in
    (exceeds counted.request_per_second limit, counted)

-- onNewConnCallback's choice: the index of a net thread with the fewest connections, given the
-- threads from `i` on and the best one before them.
unfoldable pub choose_from : ℕ → ℕ → ℕ → List ℕ → ℕ
choose_from i best least [] = best
choose_from i best least (n ∷ rest) =
    let better = choose_from (suc i) i n rest in
    let same = choose_from (suc i) best least rest in if ltb n least then better else same

unfoldable pub choose_thread : List ℕ → Outcome ℕ
unfolding choose_from
choose_thread [] = fault
choose_thread (n ∷ rest) = done (choose_from 1 0 n rest)

module _ (api : MessageApi) where
  open api use {Message}

  -- A call of a handler: of whom, which message, and its body.
  pub record Call : Type 0 where
    pub handler : ℕ
    pub id : NetId
    pub message_id : ℕ
    pub body : Option Message

  pub record Service : Type 0 where
    pub queues : List (List (Option (NetCommand Message)))
    pub connection_infos : NetId → Option ConnectionInfo
    pub message_handlers : ℕ → Option ℕ
    pub max_request_per_second : ℤ
    pub calls : List Call
    -- The calls of onExceedRequestFrequencyLimit so far, in order.
    pub exceeded : List NetId
    -- The timers of this IOService, and those of `epoll_service_`.
    pub own_timers : Impl
    pub epoll_timers : Impl

  -- `net_threads_[i]->push(item)`. The threads' queues have no bound.
  unfoldable pub push_at :
      ℕ
      → Option (NetCommand Message)
      → List (List (Option (NetCommand Message)))
      → Outcome (List (List (Option (NetCommand Message))))
  push_at i item [] = fault
  push_at zero item (q ∷ queues) = done ((q ++ item ∷ []) ∷ queues)
  push_at (suc i) item (q ∷ queues) = push_at i item queues >>= λ rest. done (q ∷ rest)

  unfoldable pub push : NetCommand Message → Service → Outcome Service
  unfolding push_at
  push cmd s = push_at cmd.id.reactor_id (some cmd) s.queues >>= λ queues.
      done (record s { queues = queues })

  abbrev pub command_to : CommandType → NetId → NetCommand Message
  command_to type id = record { type = type; id = id; message_id = 0; body = none }

  unfoldable pub on_connect : NetId → Service → Service
  on_connect id s = elim (s.connection_infos id) [
    | some _ ↦ s
    | none ↦ record s {
      connection_infos =
          update_id s.connection_infos id
            (some (record { last_request_second = 0; request_per_second = 0 }));
    }
  ]

  unfoldable pub on_disconnect : NetId → Service → Service
  on_disconnect id s = record s { connection_infos = update_id s.connection_infos id none }

  unfoldable pub disconnect : NetId → Service → Outcome Service
  unfolding push on_disconnect
  disconnect id s = push (command_to close id) s >>= λ t. done (on_disconnect id t)

  unfoldable pub send_message : NetId → ℕ → Option Message → Service → Outcome Service
  unfolding push
  send_message id message_id body s =
      push (record { type = message; id = id; message_id = message_id; body = body }) s

  unfoldable pub enable_broadcast_to : NetId → Service → Outcome Service
  unfolding push
  enable_broadcast_to id s = push (command_to enable_broadcast id) s

  unfoldable pub disable_broadcast_to : NetId → Service → Outcome Service
  unfolding push
  disable_broadcast_to id s = push (command_to disable_broadcast id) s

  -- `message->clone()` is a virtual method of the message class. The socket's id stays that of
  -- `NetId()`.
  module _ (clone : Message → Message) where
    -- The loop over the net threads, from the `i`-th on, of which `n` are left.
    unfoldable pub broadcast_from : ℕ → ℕ → ℕ → Message → Service → Outcome Service
    unfolding push
    broadcast_from zero i message_id m s = done s
    broadcast_from (suc n) i message_id m s =
        push
          (record {
            type = broadcast;
            id = record no_id { reactor_id = i };
            message_id = message_id;
            body = some (clone m);
          })
          s
        >>= broadcast_from n (suc i) message_id m

    unfoldable pub broadcast_message : ℕ → Option Message → Service → Outcome Service
    unfolding broadcast_from
    broadcast_message message_id none s = elim s.queues [ [] ↦ done s | (_ ∷ _) ↦ fault ]
    broadcast_message message_id (some m) s = broadcast_from (length s.queues) 0 message_id m s

  unfoldable pub get_message_handler : ℕ → Service → Option ℕ
  get_message_handler message_id s = s.message_handlers message_id

  unfoldable pub set_message_handler : ℕ → ℕ → Service → Service
  set_message_handler message_id handler s = record s {
    message_handlers = λ j. if message_id == j then some handler else s.message_handlers j;
  }

  -- The end of onMessage: the handler is called, or there is none.
  unfoldable pub handle : NetId → ℕ → Option Message → Service → Service
  unfolding get_message_handler
  handle id message_id body s = elim (get_message_handler message_id s) [
    | none ↦ s
    | some handler ↦ record s {
      calls =
          s.calls
          ++ record { handler = handler; id = id; message_id = message_id; body = body } ∷ [];
    }
  ]

  unfoldable pub with_info : NetId → ConnectionInfo → Service → Service
  with_info id info s = record s { connection_infos = update_id s.connection_infos id (some info) }

  unfoldable pub on_exceed_request_frequency_limit : NetId → Service → Service
  on_exceed_request_frequency_limit id s = record s { exceeded = s.exceeded ++ id ∷ [] }

  -- onMessage for a connection that is known. `info` is changed in place.
  unfoldable pub on_known_message :
      ℕ → NetId → ℕ → Option Message → ConnectionInfo → Service → Outcome Service
  unfolding check_request_frequency_limit with_info on_exceed_request_frequency_limit disconnect
      handle
  on_known_message now id message_id body info s =
      let checked = check_request_frequency_limit now s.max_request_per_second info in
      let counted = with_info id checked.1 s in
      if is_limited s.max_request_per_second
      then (if checked.0
          then disconnect id (on_exceed_request_frequency_limit id counted)
          else done (handle id message_id body counted))
      else done (handle id message_id body s)

  -- `now` is the second that `Timestamp::getNow` gives.
  unfoldable pub on_message : ℕ → NetId → ℕ → Option Message → Service → Outcome Service
  unfolding on_known_message
  on_message now id message_id body s = elim (s.connection_infos id) [
    | none ↦ done s
    | some info ↦ on_known_message now id message_id body info s
  ]

  unfoldable pub process_as : CommandType → ℕ → NetCommand Message → Service → Outcome Service
  unfolding on_connect on_disconnect on_message
  process_as new now cmd s = done (on_connect cmd.id s)
  process_as close now cmd s = done (on_disconnect cmd.id s)
  process_as message now cmd s = on_message now cmd.id cmd.message_id cmd.body s
  process_as enable_broadcast now cmd s = done s
  process_as disable_broadcast now cmd s = done s
  process_as broadcast now cmd s = done s

  unfoldable pub process_net_command : ℕ → NetCommand Message → Service → Outcome Service
  unfolding process_as
  process_net_command now cmd s = process_as cmd.type now cmd s

  -- onClientNetCommandQueueRead: `clock` gives the second at each command; `left` commands may
  -- still be taken. The result has the commands that stay in the queue.
  unfoldable pub read_commands :
      ℕ
      → (ℕ → ℕ)
      → List (NetCommand Message)
      → Service
      → Outcome (Service × List (NetCommand Message))
  unfolding process_net_command
  read_commands left clock [] s = done (s, [])
  read_commands zero clock (cmd ∷ queue) s = done (s, cmd ∷ queue)
  read_commands (suc left) clock (cmd ∷ queue) s =
      process_net_command (clock 0) cmd s >>= read_commands left (λ n. clock (suc n)) queue

  abbrev pub batch : ℕ
  batch = 100

  unfoldable pub on_client_net_command_queue_read :
      (ℕ → ℕ) → List (NetCommand Message) → Service → Outcome (Service × List (NetCommand Message))
  unfolding read_commands
  on_client_net_command_queue_read clock queue s = read_commands batch clock queue s

  -- As on Linux.
  unfoldable pub start_timer : Timestamp → ℤ → ℤ → Service → Outcome (ℤ × Service)
  start_timer now timeout_ms call_times s =
      add_timer now timeout_ms call_times s.epoll_timers >>= λ (id, heap).
      done (id, record s { epoll_timers = heap })

  unfoldable pub stop_timer : ℤ → Service → Outcome Service
  stop_timer (pos id) s =
      remove_timer id s.own_timers >>= λ heap. done (record s { own_timers = heap })
  stop_timer (negsuc _) s = done s
