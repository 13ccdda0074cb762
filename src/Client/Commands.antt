-- ===== src/Client/Commands.antt =====
-- TcpClient (zbluenet/zbluenet/src/zbluenet/client/tcp_client.cc): the commands that its net thread
-- hands over, and the functions that create its messages. GameServer
-- (zbluenet/zbluenet/src/zbluenet/server/game_server.cc) keeps such a map in the same way.
use zbluenet.Base.{
  ℕ, zero, suc, Bool, true, false, List, [], ◌∷◌, map, take, drop, Option, none, some, Outcome,
  done, fault, ◌≡◌, refl, arith, ◌==◌, if◌then◌else◌,
}
use zbluenet.Protocol.{MessageApi, NetCommand}
use zbluenet.Client.Dispatch.{TcpClientService, process_net_command}

-- The map from a message's id to the function that creates it, `F`.
module _ (F M : Type 0) where
  unfoldable pub register_message_create_func : ℕ → F → (ℕ → Option F) → Bool × (ℕ → Option F)
  register_message_create_func id f functions = elim (functions id) [
    | some g ↦ (false, functions)
    | none ↦ (true, λ j. if id == j then some f else functions j)
  ]

  unfoldable pub create_message_map : (F → M) → ℕ → (ℕ → Option F) → Option M
  create_message_map call id functions = elim (functions id) [
    | none ↦ none
    | some f ↦ some (call f)
  ]

  -- The function that is registered first for an id creates its messages, whatever is registered
  -- for the id later.
  create_message_map-register_message_create_func :
      (call : F → M) (id : ℕ) (f g : F) (functions : ℕ → Option F)
      → functions id ≡ none
      → let once = register_message_create_func id f functions in
        let twice = register_message_create_func id g once.1 in
        (once.0 ≡ true)
        × (twice.0 ≡ false)
        × (create_message_map call id once.1 ≡ some (call f))
        × (create_message_map call id twice.1 ≡ some (call f))
  unfolding register_message_create_func create_message_map
  create_message_map-register_message_create_func call id f g functions free = ground (arith, free)

module _ (api : MessageApi) where
  open api use {Message}

  -- The loop of onClientNetCommandQueueRead, with the number of commands that it may still
  -- process, and the items that stay in the queue. A null command is dereferenced.
  read_commands :
      ℕ
      → List (Option (NetCommand Message))
      → TcpClientService api
      → Outcome (TcpClientService api × List (Option (NetCommand Message)))
  read_commands zero queue s = done (s, queue)
  read_commands (suc left) [] s = done (s, [])
  read_commands (suc left) (none ∷ queue) s = fault
  read_commands (suc left) (some cmd ∷ queue) s =
      read_commands left queue (process_net_command api cmd s)

  unfoldable pub on_client_net_command_queue_read :
      List (Option (NetCommand Message))
      → TcpClientService api
      → Outcome (TcpClientService api × List (Option (NetCommand Message)))
  unfolding read_commands
  on_client_net_command_queue_read queue s = read_commands 100 queue s

  -- The commands one after the other.
  abbrev process_all : List (NetCommand Message) → TcpClientService api → TcpClientService api
  process_all [] s = s
  process_all (cmd ∷ cmds) s = process_all cmds (process_net_command api cmd s)

  read_commands-take :
      (left : ℕ) (cmds : List (NetCommand Message)) (s : TcpClientService api)
      → read_commands left (map some cmds) s
        ≡ done (process_all (take left cmds) s, map some (drop left cmds))
  unfolding read_commands
  read_commands-take zero cmds s = refl
  read_commands-take (suc left) [] s = refl
  read_commands-take (suc left) (cmd ∷ cmds) s =
      read_commands-take left cmds (process_net_command api cmd s)
