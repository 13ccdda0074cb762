-- ===== src/Service/Tests.antt =====
-- A service with two net threads, and the theorems at it.
use zbluenet.Base.{
  ℕ, ◌<◌, ◌≡◌, refl, arith, List, [], ◌∷◌, ◌++◌, none, some, ◌==◌, if◌then◌else◌, Ends, done,
  length, get_or,
}
use zbluenet.Base.Int.{pos}
use zbluenet.Timers
use zbluenet.Timers.{at_least_zero}
use zbluenet.Timers.Valid.{new-IsValid, view}
use zbluenet.Time.{add_millisecond}
use zbluenet.Connection
use zbluenet.Protocol.{NetId, NetCommand, message, close}
use zbluenet.Reactor.{attach_socket, is_connected_socket}
use zbluenet.NetThread.{attach}
use zbluenet.NetThread.Tests.{raw, raw-Fits, calm, calm-IsRound, busy, busy-IsAlive}
use zbluenet.Service.{Service, choose_thread, choose_from, broadcast_message, read_commands}
use zbluenet.Service.Balance.{IsFirstLeast, choose_thread_lem}
use zbluenet.Service.Queues.{broadcast_to, broadcast_message_lem}
use zbluenet.Service.Sessions.{Refines, read_commands-Refines}
use zbluenet.Service.Delivery.{
  Reaches, send_and_handle, send_message-Reaches, start_then_stop, start_timer-stop_timer,
}

-- The third thread has the fewest connections.
chosen : choose_thread (5 ∷ 7 ∷ 2 ∷ 2 ∷ []) ≡ done 2
unfolding choose_thread choose_from
chosen = refl

abbrev player : NetId
player = record { reactor_id = 1; socket_id = 3 }

-- Two requests a second more than the first, and a handler of message 7. All connections are known.
abbrev service : Service raw
service = record {
  queues = [] ∷ [] ∷ [];
  connection_infos = λ _. some (record { last_request_second = 0; request_per_second = 0 });
  message_handlers = λ k. if k == 7 then some 1 else none;
  max_request_per_second = pos 2;
  calls = [];
  exceeded = [];
  own_timers = Timers.new;
  epoll_timers = Timers.new;
}

abbrev open_service : Service raw
open_service = record service { max_request_per_second = pos 0 }

abbrev sent : NetCommand (List ℕ)
sent = record { type = message; id = player; message_id = 7; body = some (9 ∷ []) }

abbrev closing : NetCommand (List ℕ)
closing = record { type = close; id = player; message_id = 0; body = none }

choose_thread_lem_example :
    Ends (IsFirstLeast (5 ∷ 7 ∷ 2 ∷ 2 ∷ [])) (choose_thread (5 ∷ 7 ∷ 2 ∷ 2 ∷ []))
choose_thread_lem_example = choose_thread_lem (5 ∷ 7 ∷ 2 ∷ 2 ∷ []) (omega arith)

broadcast_message_lem_example :
    Ends
      (λ u.
        (length u.queues ≡ 2)
        × ((j : ℕ)
            → j < 2
            → get_or u.queues j []
              ≡ get_or service.queues j [] ++ some (broadcast_to raw (λ m. m) 7 (9 ∷ []) j) ∷ [])
        × (u ≡ record service { queues = u.queues }))
      (broadcast_message raw (λ m. m) 7 (some (9 ∷ [])) service)
broadcast_message_lem_example = broadcast_message_lem raw (λ m. m) 7 (9 ∷ []) service

read_commands-Refines_example :
    Ends
      (Refines raw (sent ∷ closing ∷ sent ∷ []) open_service)
      (read_commands raw 100 (λ _. 60) (sent ∷ closing ∷ sent ∷ []) open_service)
read_commands-Refines_example =
    read_commands-Refines raw 100 (λ _. 60) (sent ∷ closing ∷ sent ∷ []) open_service refl
      (omega arith)

send_message-Reaches_example :
    Ends
      (Reaches raw (λ _. calm) player 7 (9 ∷ []) busy)
      (send_and_handle raw (λ _. calm) player 7 (9 ∷ []) service busy)
unfolding attach attach_socket Timers.new is_connected_socket Connection.connect
send_message-Reaches_example =
    send_message-Reaches raw (λ _. calm) player 7 (9 ∷ []) (9 ∷ []) service busy raw-Fits
      calm-IsRound busy-IsAlive (omega arith) (omega arith) refl refl refl

start_timer-stop_timer_example :
    Ends
      (λ w. view w.epoll_timers 1 ≡ some (add_millisecond calm.now 50, 50, pos 1))
      (start_then_stop raw calm.now (pos 50) (pos 1) service)
unfolding Timers.new
start_timer-stop_timer_example =
    start_timer-stop_timer raw calm.now (pos 50) (pos 1) service new-IsValid.0 new-IsValid.0
      calm-IsRound.normal (omega arith)
