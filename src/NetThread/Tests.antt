-- ===== src/NetThread/Tests.antt =====
-- A net thread with a socket, and the theorems at it.
use zbluenet.Base.{
  ℕ, refl, arith, true, false, List, [], ◌∷◌, none, some, leb, if◌then◌else◌, Ends, length,
}
use zbluenet.Timers
use zbluenet.Timers.Valid.{new-IsValid}
use zbluenet.Buffer
use zbluenet.Connection.{took}
use zbluenet.Protocol.{MessageApi, NetCommand, message, broadcast}
use zbluenet.Reactor
use zbluenet.Reactor.{Reactor, check_exists, attach_socket}
use zbluenet.Reactor.Running.{IsRunning}
use zbluenet.NetThread.{
  Round, NetThread, attach, on_peer_close, on_error, process, on_net_command, on_broadcast,
}
use zbluenet.NetThread.Encoding.{IsRound, Fits, IsAlive}
use zbluenet.NetThread.Broadcasts.{Broadcast, on_broadcast_lem}
use zbluenet.NetThread.Loop.{Processed, Ran, process_lem, on_net_command_lem}
use zbluenet.NetThread.Sessions.{Attached, Closed, sessions_lem}

-- A message is its own payload.
abbrev pub raw : MessageApi
raw = record {
  Message = List ℕ;
  create = λ message_id. some [];
  encode = λ m room. if leb (length m) room then some m else none;
  decode = λ blank payload. some payload;
}

pub raw-Fits : Fits raw
raw-Fits m room bytes e = ground (arith, e)

abbrev pub calm : Round
calm = record { now = record { second = 5; nanosecond = 0 }; answer = λ id bytes. took 0 }

pub calm-IsRound : IsRound calm
calm-IsRound = record { normal = omega arith; honest = λ id m k e. ground (arith, e) }

abbrev empty : Reactor
empty = record {
  sizes = record {
    read_buffer_init_size = 8;
    read_buffer_expand_size = 8;
    write_buffer_init_size = 8;
    write_buffer_expand_size = 8;
    write_buffer_max_size = 100;
  };
  sockets = λ _. false;
  connections = λ _. none;
  socket_to_timer = λ _. none;
  timer_to_socket = λ _. none;
  timer_heap = Timers.new;
}

empty-IsRunning : IsRunning empty
unfolding Timers.new
empty-IsRunning = record {
  configured = omega arith;
  agreed = λ id. refl;
  timed = record {
    paired = record {
      to_timer = λ id t e. absurd (grind arith);
      to_socket = λ t id e. absurd (grind arith);
    };
    heap = new-IsValid.0;
    started = λ t h. refl;
  };
  quiet = λ id c e. absurd (grind arith);
  placed = λ id c e. absurd (grind arith);
}

abbrev pub thread : NetThread raw
thread = record {
  id = 1;
  reactor = empty;
  quit = false;
  encode_buffer = record {
    buffer = 0 ∷ 0 ∷ 0 ∷ 0 ∷ 0 ∷ 0 ∷ [];
    expand_size = 8;
    read_index = 0;
    write_index = 0;
  };
  broadcast_list = 3 ∷ [];
  told = [];
}

thread-IsAlive : IsAlive raw thread
thread-IsAlive = record {
  running = empty-IsRunning;
  encodes = omega arith;
  lower = omega arith;
  upper = omega arith;
  ascending = (tt, tt);
}

abbrev pub busy : NetThread raw
busy = attach raw true 3 thread

pub busy-IsAlive : IsAlive raw busy
busy-IsAlive = (sessions_lem raw true 3 0 thread thread-IsAlive refl).0.alive

sessions_lem_example :
    Attached raw true 3 thread (attach raw true 3 thread)
    × Closed raw 3 thread (on_peer_close raw 3 thread)
    × Closed raw 3 thread (on_error raw 3 104 thread)
sessions_lem_example = sessions_lem raw true 3 104 thread thread-IsAlive refl

abbrev to_all : NetCommand (List ℕ)
to_all = record {
  type = broadcast;
  id = record { reactor_id = 1; socket_id = 0 };
  message_id = 7;
  body = some (9 ∷ []);
}

abbrev pub to_one : NetCommand (List ℕ)
to_one = record {
  type = message;
  id = record { reactor_id = 1; socket_id = 3 };
  message_id = 7;
  body = some (9 ∷ []);
}

on_broadcast_lem_example :
    Ends (Broadcast raw calm to_all (9 ∷ []) busy) (on_broadcast raw calm to_all busy)
unfolding attach attach_socket Timers.new
on_broadcast_lem_example =
    on_broadcast_lem raw calm to_all (9 ∷ []) busy raw-Fits calm-IsRound busy-IsAlive refl
      (omega arith)

process_lem_example : Ends (Processed raw calm to_one busy) (process raw calm to_one busy)
unfolding attach attach_socket Timers.new
process_lem_example =
    process_lem raw calm to_one busy raw-Fits calm-IsRound busy-IsAlive (λ _. (9 ∷ [], refl))
      (omega arith)

on_net_command_lem_example :
    Ends
      (Ran raw (λ _. calm) (some to_all ∷ none ∷ some to_one ∷ []) busy)
      (on_net_command raw (λ _. calm) (some to_all ∷ none ∷ some to_one ∷ []) busy)
unfolding attach attach_socket Timers.new
on_net_command_lem_example =
    on_net_command_lem raw (λ _. calm) (some to_all ∷ none ∷ some to_one ∷ []) busy 5 raw-Fits
      (λ _. calm-IsRound) busy-IsAlive (λ _. (9 ∷ [], refl), tt) (omega arith) (omega arith)
