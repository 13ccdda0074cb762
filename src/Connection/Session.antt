-- ===== src/Connection/Session.antt =====
-- The reactor's message callback is GameServer::onRecvMessage
-- (zbluenet/zbluenet/src/zbluenet/server/game_server.cc), and the poller calls onSocketRead
-- whenever bytes have arrived.
use zbluenet.Base.{ℕ, Outcome, done, fault, ◌>>=◌, List, [], ◌∷◌, ◌++◌, Option, none, some}
use zbluenet.Buffer.{Buffer}
use zbluenet.Protocol.{MessageApi, NetId, NetCommand, Drained, on_recv_message}
use zbluenet.Connection.{Connection}
use zbluenet.Connection.Reading.{Arrival, Handled, on_socket_read}

module _ (api : MessageApi) (max_packet_length : ℕ) (id : NetId) where
  open api use {Message}

  abbrev pub handled : Option (Drained api) → Outcome (Handled (List (NetCommand Message)))
  handled none = fault
  handled (some d) =
      done (record { output = some d.commands; closed = d.closed; buffer = d.buffer })

  unfoldable pub recv_message_cb : Buffer → Outcome (Handled (List (NetCommand Message)))
  recv_message_cb b = on_recv_message api max_packet_length id b >>= handled

  abbrev pub commands_in : Option (List (NetCommand Message)) → List (NetCommand Message)
  commands_in none = []
  commands_in (some commands) = commands

  -- One call of onSocketRead for each list of arrivals, until the connection is closed: all the
  -- commands that are handed over.
  unfoldable pub on_socket_reads :
      List (List Arrival) → Connection → Outcome (List (NetCommand Message))
  unfolding recv_message_cb
  on_socket_reads [] c = done []
  on_socket_reads (arrivals ∷ calls) c =
      on_socket_read (List (NetCommand Message)) recv_message_cb 0 arrivals c >>= λ r.
      elim r.connection [
        | none ↦ done (commands_in r.output)
        | some next ↦ on_socket_reads calls next >>= λ later. done (commands_in r.output ++ later)
      ]
