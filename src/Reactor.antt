-- ===== src/Reactor.antt =====
-- Reactor (zbluenet/zbluenet/src/zbluenet/net/reactor.{h,cc}): its maps of sockets and
-- connections, those of the timers that report errors of sending, and the timers of its
-- IOService (zbluenet/zbluenet/src/zbluenet/net/io_service.cc). Maps are functions. The clock's
-- reading is an argument. A socket's TcpSocket is in its connection; `sockets` tells the keys.
pub mod Pairs
pub mod Sockets
pub mod Running
pub mod Delivery
mod Tests
use zbluenet.Base.{
  ℕ, zero, suc, ◌+◌, Bool, true, false, Outcome, done, ◌>>=◌, List, [], ◌∷◌, Option, none, some,
  ◌==◌, if◌then◌else◌,
}
use zbluenet.Base.Int.{ℤ, pos, negsuc, same_int}
use zbluenet.Time.{Timestamp}
use zbluenet.Timers.{Impl, update, add_timer, remove_timer}
use zbluenet.Connection.{
  Connection, is_connected, connect, SendComplete, close_socket, other_callback, SendResult, Sent,
  send_message,
}

-- The sizes that the setters set.
pub record Sizes : Type 0 where
  pub read_buffer_init_size : ℕ
  pub read_buffer_expand_size : ℕ
  pub write_buffer_init_size : ℕ
  pub write_buffer_expand_size : ℕ
  pub write_buffer_max_size : ℕ

pub record Reactor : Type 0 where
  pub sizes : Sizes
  pub sockets : ℕ → Bool
  pub connections : ℕ → Option Connection
  pub socket_to_timer : ℕ → Option ℤ
  pub timer_to_socket : ℤ → Option ℕ
  pub timer_heap : Impl

abbrev pub update_int {ℓ} : {A : Type ℓ} → (ℤ → A) → ℤ → A → ℤ → A
update_int f t a j = if same_int t j then a else f j

unfoldable pub close : ℕ → Reactor → Reactor
close socket_id r = record r {
  connections = update r.connections socket_id none;
  sockets = update r.sockets socket_id false;
}

unfoldable pub check_exists : ℕ → Reactor → Bool
check_exists socket_id r = r.sockets socket_id

unfoldable pub attach_socket : ℕ → Reactor → Bool × Reactor
attach_socket socket_id r =
    let s = r.sizes in
    let connection =
      connect s.read_buffer_init_size s.read_buffer_expand_size s.write_buffer_init_size
        s.write_buffer_expand_size in
    if r.sockets socket_id then (false, r) else (
      true,
      record r {
        sockets = update r.sockets socket_id true;
        connections = update r.connections socket_id (some connection);
      },
    )

unfoldable pub is_connected_socket : ℕ → Reactor → Bool
is_connected_socket socket_id r = elim (r.connections socket_id) [
  | none ↦ false
  | some c ↦ is_connected c.status
]

-- `startTimer` and `stopTimer` of IOService.
unfoldable pub start_timer : Timestamp → ℤ → ℤ → Reactor → Outcome (ℤ × Reactor)
start_timer now timeout_ms call_times r =
    add_timer now timeout_ms call_times r.timer_heap >>= λ (id, heap).
    done (id, record r { timer_heap = heap })

unfoldable pub stop_timer : ℤ → Reactor → Outcome Reactor
stop_timer (pos id) r =
    remove_timer id r.timer_heap >>= λ heap. done (record r { timer_heap = heap })
stop_timer (negsuc _) r = done r

unfoldable pub pair : ℕ → ℤ → Reactor → Reactor
pair socket_id timer_id r = record r {
  socket_to_timer = update r.socket_to_timer socket_id (some timer_id);
  timer_to_socket = update_int r.timer_to_socket timer_id (some socket_id);
}

unfoldable pub unpair : ℕ → ℤ → Reactor → Reactor
unpair socket_id timer_id r = record r {
  socket_to_timer = update r.socket_to_timer socket_id none;
  timer_to_socket = update_int r.timer_to_socket timer_id none;
}

unfoldable pub add_socket_timer : Timestamp → ℕ → ℤ → Reactor → Outcome Reactor
unfolding start_timer pair
add_socket_timer now socket_id timeout_ms r =
    start_timer now timeout_ms (pos 1) r >>= λ (timer_id, s). done (pair socket_id timer_id s)

unfoldable pub remove_socket_timer : ℕ → Reactor → Outcome Reactor
unfolding unpair stop_timer
remove_socket_timer socket_id r = elim (r.socket_to_timer socket_id) [
  | none ↦ done r
  | some timer_id ↦ stop_timer timer_id (unpair socket_id timer_id r)
]

-- The call of error_cb_ that reports the error, if the socket is still open.
abbrev pub report : ℕ → Reactor → Option (ℕ × ℕ)
report socket_id r =
    if r.sockets socket_id
    then elim (r.connections socket_id) [ none ↦ none | some c ↦ some (socket_id, c.error_code) ]
    else none

unfoldable pub on_send_message_error : ℤ → Reactor → Reactor × Option (ℕ × ℕ)
unfolding unpair
on_send_message_error timer_id r = elim (r.timer_to_socket timer_id) [
  | none ↦ (r, none)
  | some socket_id ↦ (unpair socket_id timer_id r, report socket_id r)
]

-- What is left of sendMessage on the reactor: the connection's new state, the timer that reports
-- an error, and the callback of sendMessageThenClose.
unfoldable pub after_send_message : Timestamp → ℕ → Reactor → Sent → Outcome (Bool × Reactor)
unfolding add_socket_timer close
after_send_message now socket_id r s =
    let kept = record r { connections = update r.connections socket_id (some s.connection) } in
    let timed = add_socket_timer now socket_id (pos 0) kept >>= λ t. done (s.result, t) in
    if s.error_timer then timed else elim s.completed [
      | some close_socket ↦ done (s.result, close socket_id kept)
      | some (other_callback _) ↦ done (s.result, kept)
      | none ↦ done (s.result, kept)
    ]

unfoldable pub send_message_to :
    Timestamp → ℕ → List ℕ → Option SendComplete → SendResult → Reactor → Outcome (Bool × Reactor)
unfolding after_send_message
send_message_to now socket_id buffer send_complete_cb answer r = elim (r.connections socket_id) [
  | none ↦ done (false, r)
  | some c ↦
      send_message r.sizes.write_buffer_max_size buffer send_complete_cb answer c
      >>= after_send_message now socket_id r
]
