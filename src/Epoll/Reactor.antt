-- ===== src/Epoll/Reactor.antt =====
-- EpollReactor (zbluenet/zbluenet/src/zbluenet/net/epoll_reactor.{h,cc}), with the calls of the
-- poller (net/epoller.cc) for its sockets and those of the reactor's owner, as NetThread
-- (net/net_thread.cc) makes them: its callbacks for an error and for the end of a stream close
-- the socket. The service of EpollService (net/epoll_service.cc) has the same loop.
pub mod Stuck
pub mod Turn
pub mod Roomy
pub mod Deaf
mod Reads
use zbluenet.Base.{
  ℕ, ◌*◌, ◌+◌, ◌^◌, ◌<◌, ◌≤◌, length, Bool, true, false, List, Option, none, some, Outcome, done,
  fault, ◌>>=◌, ◌≡◌, if◌then◌else◌, min,
}
use zbluenet.Base.Int.{ℤ, pos, negsuc}
use zbluenet.Time.{Timestamp}
use zbluenet.Time.Laws.{IsNormal}
use zbluenet.Timers.{update}
use zbluenet.Buffer.{Buffer}
use zbluenet.Connection.{
  Connection, set_error, SendResult, SendComplete, close_socket, other_callback, on_socket_write,
  Flushed,
}
use zbluenet.Connection.Reading.{Arrival, Handled, Read, on_socket_read}
use zbluenet.Reactor
use zbluenet.Reactor.{Reactor, send_message_to}
use zbluenet.Reactor.Delivery.{IsHonest}
use zbluenet.Reactor.Running.{longest}
use zbluenet.Epoll.{
  Callbacks, Interest, Epoller, add, del, attach_io_service, detach_io_service, Kind, write_kind,
  read_kind, error_kind, Ready, Waited, events, do_event,
}

pub record EpollReactor : Type 0 where
  pub reactor : Reactor
  pub epoller : Epoller

-- attachSocket sets the callbacks for reading and for errors.
abbrev pub socket_callbacks : Callbacks
socket_callbacks = record { read_cb = true; write_cb = false; error_cb = true }

unfoldable pub attach_socket : Bool → ℕ → EpollReactor → Bool × EpollReactor
unfolding attach_io_service
attach_socket accepted id r =
    let attached = attach_io_service true accepted socket_callbacks id (false, r.epoller) in
    if r.reactor.sockets id
    then (false, r)
    else if attached.0
    then (true, record { reactor = (Reactor.attach_socket id r.reactor).1; epoller = attached.1.1 })
    else (false, record r { epoller = attached.1.1 })

-- The socket is attached to the reactor as long as it is in its map.
unfoldable pub close_socket_in : Bool → ℕ → EpollReactor → EpollReactor
unfolding detach_io_service
close_socket_in accepted id r =
    if r.reactor.sockets id
    then record {
      reactor = Reactor.close id r.reactor;
      epoller = (detach_io_service accepted id (true, r.epoller)).1;
    }
    else r

unfoldable pub store : ℕ → Connection → EpollReactor → EpollReactor
store id c r = record r {
  reactor = record (r.reactor) { connections = update r.reactor.connections id (some c) };
}

-- onSocketError of Reactor.
unfoldable pub on_socket_error : Bool → ℕ → ℕ → EpollReactor → EpollReactor
unfolding close_socket_in store
on_socket_error accepted id socket_error r = elim (r.reactor.connections id) [
  | none ↦ r
  | some c ↦ close_socket_in accepted id (store id (set_error socket_error c) r)
]

-- onSocketWrite of Reactor.
unfoldable pub after_socket_write : Bool → ℕ → EpollReactor → Flushed → EpollReactor
unfolding close_socket_in store
after_socket_write accepted id r f =
    let kept = store id f.connection r in
    elim f.error [
      | some _ ↦ close_socket_in accepted id kept
      | none ↦ elim f.completed [
        | some close_socket ↦ close_socket_in accepted id kept
        | some (other_callback _) ↦ kept
        | none ↦ kept
      ]
    ]

unfoldable pub on_write : Bool → SendResult → ℕ → EpollReactor → Outcome EpollReactor
unfolding after_socket_write
on_write accepted answer id r = elim (r.reactor.connections id) [
  | none ↦ done r
  | some c ↦ on_socket_write answer c >>= λ f. done (after_socket_write accepted id r f)
]

module _ (Output : Type 0) (cb : Buffer → Outcome (Handled Output)) (read_max_size : ℕ) where
  -- onSocketRead of Reactor; a socket that the callback has closed is gone.
  unfoldable pub after_socket_read : Bool → ℕ → EpollReactor → Read Output → EpollReactor
  unfolding close_socket_in store
  after_socket_read accepted id r result = elim result.connection [
    | none ↦ close_socket_in accepted id r
    | some c ↦ if result.success then store id c r else close_socket_in accepted id (store id c r)
  ]

  unfoldable pub on_read : Bool → List Arrival → ℕ → EpollReactor → Outcome EpollReactor
  unfolding after_socket_read
  on_read accepted arrivals id r = elim (r.reactor.connections id) [
    | none ↦ done r
    | some c ↦ on_socket_read Output cb read_max_size arrivals c >>= λ result.
        done (after_socket_read accepted id r result)
  ]

  -- The callbacks of a socket as the poller calls them, with the answers of `recv`, of `send` and
  -- of SO_ERROR for each socket. A socket that is not in the map is destroyed: a call of its
  -- callback is undefined. So is that of a callback that is not set.
  module _ (arrivals : ℕ → List Arrival) (answer : ℕ → SendResult) (socket_error : ℕ → ℕ) where
    writing : ℕ → EpollReactor → Outcome EpollReactor
    unfolding on_write
    writing id r = elim (r.reactor.connections id) [
      | none ↦ fault
      | some c ↦
          let written = on_write true (answer id) id r in
          if c.write_callback then written else fault
    ]

    calling : Kind → ℕ → EpollReactor → Outcome EpollReactor
    unfolding writing on_read on_socket_error
    calling write_kind id r = writing id r
    calling read_kind id r = on_read true (arrivals id) id r
    calling error_kind id r = done (on_socket_error true id (socket_error id) r)

    unfoldable pub call_back : Kind → ℕ → EpollReactor → Outcome EpollReactor
    unfolding calling
    call_back kind id r =
        let called = calling kind id r in if r.reactor.sockets id then called else fault

    -- doEvent of the reactor's poller, when `epoll_wait` reports events of sockets.
    unfoldable pub poll : Waited → EpollReactor → Outcome (Bool × EpollReactor)
    unfolding do_event call_back
    poll waited r = do_event (λ s. s.epoller) (λ e s. record s { epoller = e }) call_back waited r

  -- What happens to a reactor, one thing at a time. A message is a frame at most, and the socket
  -- takes no more than it is given. A callback is called for an event that the
  -- poller reports; EPOLLOUT is reported only of a device that it was told to watch for it.
  pub data Step (r : EpollReactor) : EpollReactor → Type 0 where
    attached : (accepted : Bool) (id : ℕ) → Step r (attach_socket accepted id r).1
    closed : (accepted : Bool) (id : ℕ) → Step r (close_socket_in accepted id r)
    sent :
        (now : Timestamp) (id : ℕ) (bytes : List ℕ) (answer : SendResult) {ok : Bool} {t : Reactor}
        → IsNormal now
        → r.reactor.timer_heap.timer_id + 1 < 2 ^ 63
        → IsHonest id bytes answer r.reactor
        → length bytes ≤ longest
        → send_message_to now id bytes none answer r.reactor ≡ done (ok, t)
        → Step r (record r { reactor = t })
    readable :
        (accepted : Bool) (arrivals : List Arrival) (id : ℕ) {t : EpollReactor}
        → on_read accepted arrivals id r ≡ done t
        → Step r t
    writable :
        (accepted : Bool) (answer : SendResult) (id : ℕ) (i : Interest) {t : EpollReactor}
        → r.epoller.interests id ≡ some i
        → i.output ≡ true
        → on_write accepted answer id r ≡ done t
        → Step r t
    failing :
        (accepted : Bool) (id socket_error : ℕ)
        → Step r (on_socket_error accepted id socket_error r)

  -- The reactors that come of one that watches nothing.
  pub data Reach : EpollReactor → Type 0 where
    start : {r : EpollReactor} → ((id : ℕ) → r.epoller.interests id ≡ none) → Reach r
    later : {r t : EpollReactor} → Reach r → Step r t → Reach t

-- The timeout that loop passes to doEvent, and that doEvent passes to `epoll_wait`.
abbrev pub max_epoll_timeout_msec : ℕ
max_epoll_timeout_msec = 30 * 60 * 1000

unfoldable pub timer_timeout : ℤ → ℕ
timer_timeout (pos ms) = min ms max_epoll_timeout_msec
timer_timeout (negsuc _) = 0
