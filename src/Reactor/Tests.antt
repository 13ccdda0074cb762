-- ===== src/Reactor/Tests.antt =====
-- A reactor with a socket, and the theorems at it.
use zbluenet.Base.{
  ℕ, ◌≡◌, refl, arith, Bool, true, false, [], ◌∷◌, Option, none, some, ◌>>=◌, Outcome, done,
}
use zbluenet.Base.Int.{pos}
use zbluenet.Time.{Timestamp, add_millisecond, less}
use zbluenet.Timers
use zbluenet.Timers.{
  next_id, make_timer, min_heap_insert, append_timer, sift_up, swap_timers, set_heap_pos, add_timer,
}
use zbluenet.Timers.Valid.{new-IsValid}
use zbluenet.Connection.{
  connect, took, send_failed, close_socket, send_message, after_send, queue_message, set_error,
}
use zbluenet.Buffer
use zbluenet.Reactor.{
  Reactor, close, check_exists, attach_socket, add_socket_timer, on_send_message_error,
  send_message_to, after_send_message, start_timer, pair, unpair,
}
use zbluenet.Reactor.Sockets.{IsAgreed}
use zbluenet.Reactor.Pairs.{IsPaired, IsTimed, pair-IsPaired, Reported, on_send_message_error_lem}

abbrev clock : Timestamp
clock = record { second = 5; nanosecond = 0 }

abbrev bare : Reactor
bare = record {
  sizes = record {
    read_buffer_init_size = 8;
    read_buffer_expand_size = 8;
    write_buffer_init_size = 8;
    write_buffer_expand_size = 8;
    write_buffer_max_size = 0;
  };
  sockets = λ _. false;
  connections = λ _. none;
  socket_to_timer = λ _. none;
  timer_to_socket = λ _. none;
  timer_heap = Timers.new;
}

abbrev then_exists : Bool × Reactor → Outcome (Bool × Bool)
then_exists (ok, s) = done (ok, check_exists 3 s)

abbrev then_told : Bool × Reactor → Outcome (Bool × Option (ℕ × ℕ))
then_told (ok, s) = done (ok, (on_send_message_error (pos 1) s).1)

-- A message sent whole by sendMessageThenClose closes the socket.
sent_then_closed :
    (send_message_to clock 3 (1 ∷ 2 ∷ []) (some close_socket) (took 2) (attach_socket 3 bare).1
      >>= then_exists)
    ≡ done (true, false)
unfolding attach_socket connect send_message_to after_send_message send_message after_send
    queue_message close check_exists Buffer.new
sent_then_closed = refl

-- The timer of a failed send reports the errno once.
failed_then_told :
    (send_message_to clock 3 (1 ∷ 2 ∷ []) none (send_failed 104) (attach_socket 3 bare).1
      >>= then_told)
    ≡ done (false, some (3, 104))
unfolding attach_socket connect send_message_to after_send_message send_message after_send
    queue_message set_error Buffer.new add_socket_timer start_timer pair unpair
    on_send_message_error add_timer Timers.new next_id make_timer min_heap_insert append_timer
    sift_up swap_timers set_heap_pos less add_millisecond
failed_then_told = refl

bare-IsAgreed : IsAgreed bare
bare-IsAgreed id = refl

bare-IsPaired : IsPaired bare
bare-IsPaired = record {
  to_timer = λ id t e. absurd (grind arith);
  to_socket = λ t id e. absurd (grind arith);
}

bare-IsTimed : IsTimed bare
unfolding Timers.new
bare-IsTimed = record { paired = bare-IsPaired; heap = new-IsValid.0; started = λ t h. refl }

on_send_message_error_lem_example :
    Reported (pos 1) (on_send_message_error (pos 1) (pair 3 (pos 1) bare))
unfolding pair
on_send_message_error_lem_example =
    on_send_message_error_lem (pos 1) (pair 3 (pos 1) bare)
      (pair-IsPaired bare 3 (pos 1) bare-IsPaired refl refl)
