-- ===== src/Client/Tests.antt =====
-- A client with a connection and an old timer, and the theorems at it.
use zbluenet.Base.{ℕ, arith, true, List, [], ◌∷◌, Option, none, some, Ends}
use zbluenet.Timers
use zbluenet.Buffer.{Buffer}
use zbluenet.Buffer.Invariant.{contents}
use zbluenet.Protocol.{NetCommand}
use zbluenet.Protocol.Frames.{parse}
use zbluenet.Reactor.{attach_socket}
use zbluenet.NetThread.{attach}
use zbluenet.NetThread.Tests.{raw, busy, busy-IsAlive, calm, calm-IsRound, to_one}
use zbluenet.Client.{Client, minus_one, on_close, on_recv_message, max_packet_length}
use zbluenet.Client.Receiving.{Drains, on_recv_message-Drains}
use zbluenet.Client.Reconnect.{Reconnects, on_close_lem}

abbrev joined : Client raw
joined = record {
  thread = busy;
  connected = true;
  reconnect_interval_ms = 3000;
  socket_id = 3;
  reconnect_timer = minus_one;
  id_value = 1;
}

on_close_lem_example : Ends (Reconnects raw calm.now joined) (on_close raw calm.now joined)
unfolding attach attach_socket Timers.new
on_close_lem_example =
    on_close_lem raw calm.now joined calm-IsRound.normal busy-IsAlive (omega arith)

abbrev pending : List (Option (NetCommand (List ℕ)))
pending = some to_one ∷ none ∷ some to_one ∷ []

-- A whole frame.
abbrev arrived : Buffer
arrived = record {
  buffer = 0 ∷ 7 ∷ 0 ∷ 1 ∷ 9 ∷ [];
  expand_size = 8;
  read_index = 0;
  write_index = 5;
}

on_recv_message-Drains_example :
    Ends
      (Drains raw calm.now joined arrived (parse raw max_packet_length (contents arrived)))
      (on_recv_message raw calm.now arrived joined)
unfolding attach attach_socket Timers.new
on_recv_message-Drains_example =
    on_recv_message-Drains raw calm.now arrived joined calm-IsRound.normal
      (record {
        ordered = omega arith;
        inside = omega arith;
        small = omega arith;
        expands = omega arith;
        expands_small = omega arith;
      })
      busy-IsAlive (omega arith)
