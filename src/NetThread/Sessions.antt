-- ===== src/NetThread/Sessions.antt =====
-- A socket that is attached to a net thread and one that is closed.
use zbluenet.Base.{
  ℕ, ◌≡◌, ◌≢◌, refl, subst, arith, true, false, inl, inr, [], ◌∷◌, ◌++◌, none, length-replicate,
  Bool-cases, ◌==◌, Bool,
}
use zbluenet.Connection.{Connection, connect}
use zbluenet.Buffer
use zbluenet.Buffer.Invariant.{new-IsValid}
use zbluenet.Protocol.{MessageApi, new, close}
use zbluenet.Reactor
use zbluenet.Reactor.{Reactor, Sizes, attach_socket, is_connected_socket, check_exists}
use zbluenet.Reactor.Sockets.{attach_socket_lem, close_lem}
use zbluenet.Reactor.Running.{IsRunning, IsConfigured, IsPlaced}
use zbluenet.NetThread.{
  NetThread, command, attach, close_socket, on_peer_close, on_error, send_net_command_new,
  send_net_command_close,
}
use zbluenet.NetThread.Encoding.{IsAlive}
use zbluenet.NetThread.Commands.{close-IsRunning, with_reactor}

-- A new connection.
abbrev connect_of : Sizes → Connection
connect_of s =
    connect s.read_buffer_init_size s.read_buffer_expand_size s.write_buffer_init_size
      s.write_buffer_expand_size

connect-IsPlaced : (s : Sizes) → IsConfigured s → IsPlaced s (connect_of s)
unfolding connect Buffer.new
connect-IsPlaced s v =
    let sized = length-replicate {A = ℕ} s.write_buffer_init_size 0 in
    record {
      sound = record {
        buffer =
            new-IsValid s.write_buffer_init_size s.write_buffer_expand_size (omega (arith, v.roomy))
              v.expands (omega (arith, v.roomy));
        armed = inl refl;
      };
      bounded = omega (arith, sized);
      expand_size = refl;
    }

attach-IsRunning :
    (id : ℕ) (r : Reactor)
    → IsRunning r
    → r.socket_to_timer id ≡ none
    → IsRunning (attach_socket id r).1
unfolding attach_socket
attach-IsRunning id r v free = elim (Bool-cases (r.sockets id)) [
  | inl e ↦ rw e v
  | inr e ↦ rw e (record {
    configured = v.configured;
    agreed = λ j. ground (arith, v.agreed j);
    timed = record {
      paired = record { to_timer = v.timed.paired.to_timer; to_socket = v.timed.paired.to_socket };
      heap = v.timed.heap;
      started = v.timed.started;
    };
    quiet = λ j c h up. elim (Bool-cases (id == j)) [
      | inl here ↦ subst (λ k. r.socket_to_timer k ≡ none) (ground arith) free
      | inr there ↦ v.quiet j c (grind (arith, h)) up
    ];
    placed = λ j c h. elim (Bool-cases (id == j)) [
      | inl here ↦
          subst (IsPlaced r.sizes) {x = connect_of r.sizes} (grind (arith, h))
            (connect-IsPlaced r.sizes v.configured)
      | inr there ↦ v.placed j c (grind (arith, h))
    ];
  })
]

module _ (api : MessageApi) where
  open api use {Message}

  -- A live thread tells the service of a socket that it was given, once, and of one that it has
  -- closed, whichever of the calls closes it.
  pub record Attached (watched : Bool) (id : ℕ) (t u : NetThread api) : Type 0 where
    pub alive : IsAlive api u
    pub told : u.told ≡ t.told ++ command api new t.id id ∷ []
    pub exists : watched ≡ true → check_exists id u.reactor ≡ true
    pub refused : watched ≡ false → u.reactor ≡ t.reactor
    pub others : (j : ℕ) → j ≢ id → u.reactor.connections j ≡ t.reactor.connections j

  pub record Closed (id : ℕ) (t u : NetThread api) : Type 0 where
    pub alive : IsAlive api u
    pub told : u.told ≡ t.told ++ command api close t.id id ∷ []
    pub gone : (check_exists id u.reactor ≡ false) × (is_connected_socket id u.reactor ≡ false)
    pub others : (j : ℕ) → j ≢ id → u.reactor.connections j ≡ t.reactor.connections j

  attach_lem :
      (watched : Bool) (id : ℕ) (t : NetThread api)
      → IsAlive api t
      → t.reactor.socket_to_timer id ≡ none
      → Attached watched id t (attach api watched id t)
  unfolding attach send_net_command_new
  attach_lem false id t v free = record {
    alive = with_reactor api t v t.reactor _ v.running;
    told = refl;
    exists = λ e. absurd (grind (arith, e));
    refused = λ _. refl;
    others = λ j n. refl;
  }
  attach_lem true id t v free =
      let (_, _, exists, others) = attach_socket_lem id t.reactor v.running.agreed in
      record {
        alive =
            with_reactor api t v (attach_socket id t.reactor).1 _
              (attach-IsRunning id t.reactor v.running free);
        told = refl;
        exists = λ _. exists;
        refused = λ e. absurd (grind (arith, e));
        others = others;
      }

  pub close_socket_lem :
      (id : ℕ) (t : NetThread api) → IsAlive api t → Closed id t (close_socket api id t)
  unfolding close_socket send_net_command_close
  close_socket_lem id t v =
      let (_, missing, down, others) = close_lem id t.reactor v.running.agreed in
      record {
        alive =
            with_reactor api t v (Reactor.close id t.reactor) _
              (close-IsRunning id t.reactor v.running);
        told = refl;
        gone = (missing, down);
        others = others;
      }

  -- A live thread stays live, and touches no other connection, when it is given a socket that no
  -- timer waits for, when the peer closes it and when it has an error. The service is told of the
  -- new socket, which exists then if the poller watches it; if not, the reactor is as it was, and
  -- the service is told all the same. It is told of the closed socket, which does not exist any
  -- more.
  pub sessions_lem :
      (watched : Bool) (id error : ℕ) (t : NetThread api)
      → IsAlive api t
      → t.reactor.socket_to_timer id ≡ none
      → Attached watched id t (attach api watched id t)
        × Closed id t (on_peer_close api id t)
        × Closed id t (on_error api id error t)
  unfolding on_peer_close on_error
  sessions_lem watched id error t v free =
      (attach_lem watched id t v free, close_socket_lem id t v, close_socket_lem id t v)
