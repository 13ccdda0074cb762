-- ===== src/Epoll/Tests.antt =====
-- A reactor with bytes that wait, one whose sockets are closed by their callbacks, and the
-- theorems at them.
use zbluenet.Base.{
  ℕ, ◌≡◌, refl, subst, ◌==◌, arith, inl, inr, true, false, List, [], ◌∷◌, none, some, Outcome, done,
  Ends, ends, Bool-cases,
}
use zbluenet.Buffer.{Buffer, new}
use zbluenet.Connection
use zbluenet.Base.Int.{pos}
use zbluenet.Connection.{Connection, connected, took}
use zbluenet.Connection.Reading.{Handled, Arrival, received}
use zbluenet.Reactor
use zbluenet.Reactor.Running.{IsRunning, stored, stored-IsRunning}
use zbluenet.NetThread.{attach}
use zbluenet.NetThread.Tests.{busy, busy-IsAlive}
use zbluenet.Epoll.{Epoller, Ready, events}
use zbluenet.Epoll.Accepting.{
  accepted, accept_failed, Named, on_listen_socket_read, on_listen_socket_read_lem,
}
use zbluenet.Epoll.Reactor.Roomy.{IsRoomy}
use zbluenet.Epoll.Reactor.Turn.{Good, poll_lem}
use zbluenet.Epoll.Reactor.{
  EpollReactor, start, later, attached, attach_socket, on_socket_error, failing, poll,
}
use zbluenet.Epoll.Reactor.Stuck.{Waits, step-Waits}

abbrev poller : Epoller
poller = record { interests = λ _. none; removed_io_devices = λ _. false; room = 2 }

-- Two bytes wait, and the write callback is set.
abbrev waiting : Connection
waiting = record {
  wire = [];
  write_callback = true;
  status = connected;
  error_code = 0;
  read_buffer = record { buffer = []; expand_size = 8; read_index = 0; write_index = 0 };
  write_buffer = record {
    buffer = 1 ∷ 2 ∷ 0 ∷ 0 ∷ [];
    expand_size = 8;
    read_index = 0;
    write_index = 2;
  };
  send_complete_cb = none;
}

abbrev first : Connection
first = Connection.connect 8 8 8 8

found : busy.reactor.connections 3 ≡ some first
unfolding attach Reactor.attach_socket
found = refl

abbrev waiting_reactor : EpollReactor
waiting_reactor = record {
  reactor = stored busy.reactor busy-IsAlive.running 3 first found waiting;
  epoller = poller;
}

waiting-IsRunning : IsRunning waiting_reactor.reactor
unfolding attach Reactor.attach_socket Connection.connect
waiting-IsRunning =
    stored-IsRunning busy.reactor busy-IsAlive.running 3 first found waiting
      (record {
        sound = record { buffer = omega arith; armed = inr refl };
        bounded = omega arith;
        expand_size = refl;
      })
      (λ _. refl)

abbrev drop_all : Buffer → Outcome (Handled ℕ)
drop_all b = done (record { output = none; closed = false; buffer = b })

step-Waits_example : Waits 3 waiting (on_socket_error true 5 104 waiting_reactor).reactor
step-Waits_example =
    step-Waits ℕ drop_all 0 3 waiting waiting_reactor (on_socket_error true 5 104 waiting_reactor)
      (start λ id. refl) waiting-IsRunning refl (omega arith) (failing true 5 104)

-- A second socket is attached. Both are readable, it has an error as well, and the application
-- closes what it reads from.
abbrev two : EpollReactor
two = (attach_socket true 4 waiting_reactor).1

abbrev ready : List Ready
ready =
    record { device = 4; output = false; input = true; error = true }
    ∷ record { device = 3; output = false; input = true; error = false }
    ∷ []

abbrev close_all : Buffer → Outcome (Handled ℕ)
close_all b = done (record { output = none; closed = true; buffer = b })

abbrev two_bytes : ℕ → List Arrival
two_bytes id = record { readable = pos 2; answer = received (1 ∷ 2 ∷ []) } ∷ []

two-Good : Good ℕ close_all 0 8 10 two_bytes (λ _. took 0) (λ _. 104) 2 two
unfolding attach_socket Reactor.attach_socket attach Connection.connect new
two-Good id c e = elim (Bool-cases (4 == id)) [
  | inl new ↦
      subst (λ (x : Connection). IsRoomy 8 10 2 x.read_buffer) {x = first} {y = c}
        (grind (arith, new, e)) (record { valid = omega arith; expand = refl; room = omega arith })
  | inr other ↦ elim (Bool-cases (3 == id)) [
    | inl old ↦
        subst (λ (x : Connection). IsRoomy 8 10 2 x.read_buffer) {x = waiting} {y = c}
          (grind (arith, old, other, e))
          (record { valid = omega arith; expand = refl; room = omega arith })
    | inr none_else ↦ absurd (grind (arith, other, none_else, e))
  ]
]

poll_lem_example :
    Ends
      (λ out.
        (out.0 ≡ true)
        × ((id : ℕ) → out.1.epoller.removed_io_devices id ≡ false)
        × Good ℕ close_all 0 8 10 two_bytes (λ _. took 0) (λ _. 104) 0 out.1)
      (poll ℕ close_all 0 two_bytes (λ _. took 0) (λ _. 104) (events ready) two)
unfolding attach_socket Reactor.attach_socket attach
poll_lem_example =
    poll_lem ℕ close_all 0 8 10 two_bytes (λ _. took 0) (λ _. 104) (λ b v. ends (v, refl, refl))
      (omega arith) (λ id. (omega arith, tt)) (λ id. omega arith) ready two
      (later (start {r = waiting_reactor} λ id. refl) (attached true 4)) two-Good
      ((refl, λ no. absurd (grind (arith, no))), ((refl, λ no. absurd (grind (arith, no))), tt))

on_listen_socket_read_lem_example :
    Ends (Named 5 (9 ∷ 10 ∷ [])) (
      on_listen_socket_read
        (accepted 9 ∷ accept_failed 103 ∷ accepted 10 ∷ accept_failed 24 ∷ [])
        5)
on_listen_socket_read_lem_example =
    on_listen_socket_read_lem (accepted 9 ∷ accept_failed 103 ∷ accepted 10 ∷ accept_failed 24 ∷ [])
      5 (omega arith, (omega arith, tt)) (omega arith)
