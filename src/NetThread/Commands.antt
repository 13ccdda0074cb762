-- ===== src/NetThread/Commands.antt =====
-- onNetCommand: what each command does, and what the loop over the queue keeps.
use zbluenet.Base.{
  ℕ, ◌+◌, ◌%◌, ◌^◌, ◌≤◌, ◌<◌, ◌≡◌, ◌≢◌, ap, ◌∙◌, subst, arith, false, inl, inr, List, [], ◌∷◌, ◌++◌,
  Option, none, some, ◌==◌, if◌then◌else◌, Ends, ends, Ends-bind, Ends-map, Option-cases,
}
use zbluenet.Connection.{Connection}
use zbluenet.Buffer.Invariant.{contents}
use zbluenet.Protocol.{MessageApi, NetCommand, close}
use zbluenet.Protocol.Frames.{frame_bytes}
use zbluenet.Reactor
use zbluenet.Reactor.{Reactor, is_connected_socket}
use zbluenet.Reactor.Sockets.{close_lem}
use zbluenet.Reactor.Running.{IsRunning}
use zbluenet.NetThread.{Round, NetThread, command, close_socket, send_net_command_close, on_message}
use zbluenet.NetThread.Encoding.{
  IsAscending, IsRound, Fits, IsAlive, room_of, encode_command_lem, SentOne, send_encoded_lem,
}
use zbluenet.NetThread.Broadcasts.{Gets}

pub close-IsRunning : (id : ℕ) (r : Reactor) → IsRunning r → IsRunning (Reactor.close id r)
unfolding Reactor.close
close-IsRunning id r v = record {
  configured = v.configured;
  agreed = (close_lem id r v.agreed).0;
  timed = record {
    paired = record { to_timer = v.timed.paired.to_timer; to_socket = v.timed.paired.to_socket };
    heap = v.timed.heap;
    started = v.timed.started;
  };
  quiet = λ j c h. v.quiet j c (left_open id j (r.connections j) c h);
  placed = λ j c h. v.placed j c (left_open id j (r.connections j) c h);
}
  where
    left_open :
        (id j : ℕ) (o : Option Connection) (c : Connection)
        → (if id == j then none else o) ≡ some c
        → o ≡ some c
    left_open id j o c h = grind (arith, h)

module _ (api : MessageApi) where
  open api use {Message, encode}

  -- The thread with other notifications, another set or another reactor.
  pub with_reactor :
      (t : NetThread api)
      → IsAlive api t
      → (r : Reactor) (told : List (NetCommand Message)) → IsRunning r
      → IsAlive api (record t { reactor = r; told = told })
  with_reactor t v r told running = record {
    running = running;
    encodes = v.encodes;
    lower = v.lower;
    upper = v.upper;
    ascending = v.ascending;
  }

  pub with_list :
      (t : NetThread api)
      → IsAlive api t
      → (ids : List ℕ) → IsAscending ids
      → IsAlive api (record t { broadcast_list = ids })
  with_list t v ids order = record {
    running = v.running;
    encodes = v.encodes;
    lower = v.lower;
    upper = v.upper;
    ascending = order;
  }

  -- What a MESSAGE leaves, when its message encodes to `payload`, and when it does not encode.
  pub record Messaged (round : Round) (cmd : NetCommand Message) (m : Message) (t u : NetThread api)
      : Type 0 where
    pub alive : IsAlive api u
    pub list_kept : u.broadcast_list ≡ t.broadcast_list
    pub counted : u.reactor.timer_heap.timer_id ≤ t.reactor.timer_heap.timer_id + 1
    pub others : (j : ℕ) → j ≢ cmd.id.socket_id → u.reactor.connections j ≡ t.reactor.connections j
    pub sends :
        (payload : List ℕ)
        → encode m (room_of api t) ≡ some payload
        → (u.told ≡ t.told)
          × Gets api round (frame_bytes (cmd.message_id % 2 ^ 16) payload) cmd.id.socket_id t u
    pub closes :
        encode m (room_of api t) ≡ none
        → (u.told ≡ t.told ++ command api close t.id cmd.id.socket_id ∷ [])
          × (is_connected_socket cmd.id.socket_id u.reactor ≡ false)

  closed-Messaged :
      (round : Round) (cmd : NetCommand Message) (m : Message) (t w : NetThread api)
      → encode m (room_of api t) ≡ none
      → IsAlive api w
      → w ≡ record t { encode_buffer = w.encode_buffer }
      → Messaged round cmd m t (close_socket api cmd.id.socket_id w)
  unfolding close_socket send_net_command_close Reactor.close
  closed-Messaged round cmd m t w none_fits alive same =
      let id = cmd.id.socket_id in
      let reactor = ap (λ (n : NetThread api). n.reactor) same in
      let (_, _, gone, apart) = close_lem id w.reactor alive.running.agreed in
      record {
        alive =
            with_reactor w alive (Reactor.close id w.reactor) _
              (close-IsRunning id w.reactor alive.running);
        list_kept = ap (λ (n : NetThread api). n.broadcast_list) same;
        counted = omega (arith, ap (λ r. r.timer_heap.timer_id) reactor);
        others = λ j n. apart j n ∙ ap (λ r. r.connections j) reactor;
        sends = λ payload e. absurd (grind (arith, none_fits, e));
        closes =
            λ _. (ap (λ (n : NetThread api). n.told ++ command api close n.id id ∷ []) same, gone);
      }

  sent-Messaged :
      (round : Round) (cmd : NetCommand Message) (m : Message) (t w u : NetThread api)
      (payload : List ℕ)
      → encode m (room_of api t) ≡ some payload
      → w ≡ record t { encode_buffer = w.encode_buffer }
      → contents w.encode_buffer ≡ frame_bytes (cmd.message_id % 2 ^ 16) payload
      → SentOne api round cmd.id.socket_id w u
      → Messaged round cmd m t u
  sent-Messaged round cmd m t w u payload encodes same frame one =
      let id = cmd.id.socket_id in
      let (ok, q) = one.delivered in
      let reactor = ap (λ (n : NetThread api). n.reactor) same in
      let gets : Gets api round (contents w.encode_buffer) id t u = λ c found up.
        let (d, moved, way) = q.live c (ap (λ r. r.connections id) reactor ∙ found) up in
        (ok, d, moved, way, q.reported c (ap (λ r. r.connections id) reactor ∙ found) up) in
      record {
        alive = one.alive;
        list_kept =
            ap (λ (n : NetThread api). n.broadcast_list) one.same
            ∙ ap (λ (n : NetThread api). n.broadcast_list) same;
        counted = omega (arith, q.counted, ap (λ r. r.timer_heap.timer_id) reactor);
        others = λ j n. q.others j n ∙ ap (λ r. r.connections j) reactor;
        sends = λ bytes e.
            let frame_of : contents w.encode_buffer ≡ frame_bytes (cmd.message_id % 2 ^ 16) bytes =
              frame ∙ ap (frame_bytes (cmd.message_id % 2 ^ 16)) (grind (arith, encodes, e)) in
            (
              ap (λ (n : NetThread api). n.told) one.same ∙ ap (λ (n : NetThread api). n.told) same,
              subst (λ f. Gets api round f id t u) frame_of gets,
            );
        closes = λ e. absurd (grind (arith, encodes, e));
      }

  pub on_message_lem :
      (round : Round) (cmd : NetCommand Message) (m : Message) (t : NetThread api)
      → Fits api
      → IsRound round
      → IsAlive api t
      → cmd.body ≡ some m
      → t.reactor.timer_heap.timer_id + 1 < 2 ^ 63
      → Ends (Messaged round cmd m t) (on_message api round cmd t)
  unfolding on_message
  on_message_lem round cmd m t fits h v has room =
      Ends-bind (encode_command_lem api cmd m t fits v has) λ (ok, w) enc.
        elim (Option-cases (encode m (room_of api t))) [
          | inl none_fits ↦
              rw (enc.failed none_fits)
                (ends (closed-Messaged round cmd m t w none_fits enc.alive enc.same))
          | inr (payload, encodes) ↦
              let (went, frame) = enc.result payload encodes in
              let counter = ap (λ (n : NetThread api). n.reactor.timer_heap.timer_id) enc.same in
              rw went (
                Ends-map
                  (send_encoded_lem api round cmd.id.socket_id w h enc.alive
                    (omega (arith, room, counter)))
                  λ u one. sent-Messaged round cmd m t w u payload encodes enc.same frame one)
        ]
