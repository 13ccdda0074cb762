-- ===== src/Client/Dispatch.antt =====
-- TcpClientService (zbluenet/zbluenet/src/zbluenet/client/tcp_client_service.{h,cc}): its handlers
-- of messages and its commands. A handler is named by a number; `calls` are the calls so far, in
-- order, of onConnect, of onDisconnect and of the handlers.
use zbluenet.Base.{ℕ, List, [], ◌∷◌, ◌++◌, Option, none, some, ◌==◌, if◌then◌else◌, ◌≡◌, ◌≢◌, arith}
use zbluenet.Protocol.{MessageApi, NetCommand, CommandType, new, message, close, no_id}

module _ (api : MessageApi) where
  open api use {Message}

  pub data Call : Type 0 where
    on_connect on_disconnect : Call
    call_handler : ℕ → Option Message → Call

  pub record TcpClientService : Type 0 where
    pub message_handlers : ℕ → Option ℕ
    pub calls : List Call
    -- The queue of the net thread.
    pub command_queue : List (Option (NetCommand Message))

  unfoldable pub get_message_handler : ℕ → TcpClientService → Option ℕ
  get_message_handler message_id s = s.message_handlers message_id

  unfoldable pub set_message_handler : ℕ → ℕ → TcpClientService → TcpClientService
  set_message_handler message_id handler s = record s {
    message_handlers = λ j. if message_id == j then some handler else s.message_handlers j;
  }

  unfoldable pub push : NetCommand Message → TcpClientService → TcpClientService
  push cmd s = record s { command_queue = s.command_queue ++ some cmd ∷ [] }

  unfoldable pub send_message : ℕ → Message → TcpClientService → TcpClientService
  unfolding push
  send_message message_id m s =
      push (record { type = message; id = no_id; message_id = message_id; body = some m }) s

  abbrev pub called : Call → TcpClientService → TcpClientService
  called c s = record s { calls = s.calls ++ c ∷ [] }

  unfoldable pub process_as : CommandType → NetCommand Message → TcpClientService → TcpClientService
  unfolding get_message_handler
  process_as new cmd s = called on_connect s
  process_as close cmd s = called on_disconnect s
  process_as message cmd s = elim (get_message_handler cmd.message_id s) [
    | none ↦ s
    | some handler ↦ called (call_handler handler cmd.body) s
  ]
  process_as _ cmd s = s

  unfoldable pub process_net_command : NetCommand Message → TcpClientService → TcpClientService
  unfolding process_as
  process_net_command cmd s = process_as cmd.type cmd s

  -- A message is given to the handler that was set last for its id, and to no other.
  process_net_command-set_message_handler :
      (message_id handler : ℕ) (cmd : NetCommand Message) (s : TcpClientService)
      → cmd.type ≡ message
      → (cmd.message_id ≡ message_id
          → (process_net_command cmd (set_message_handler message_id handler s)).calls
            ≡ s.calls ++ call_handler handler cmd.body ∷ [])
        × (cmd.message_id ≢ message_id
            → (process_net_command cmd (set_message_handler message_id handler s)).calls
              ≡ (process_net_command cmd s).calls)
  unfolding process_net_command process_as set_message_handler get_message_handler
  process_net_command-set_message_handler message_id handler cmd s typed =
      rw typed (λ same. ground (arith, same), λ other. ground (arith, other))
