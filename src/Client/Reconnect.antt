-- ===== src/Client/Reconnect.antt =====
-- A client that loses its connection waits for one timer, and then connects again.
use zbluenet.Base.{
  ℕ, ◌+◌, ◌^◌, ◌<◌, ◌≤◌, ◌≡◌, sym, ap, ◌∙◌, arith, inl, inr, true, false, [], ◌∷◌, ◌++◌, none, some,
  Ends, Ends-map, Bool-cases, if◌then◌else◌,
}
use zbluenet.Base.Int.{pos}
use zbluenet.Time.{Timestamp, add_millisecond}
use zbluenet.Time.Laws.{IsNormal}
use zbluenet.Timers.{Impl}
use zbluenet.Timers.Valid.{view}
use zbluenet.Protocol.{MessageApi, close}
use zbluenet.Reactor
use zbluenet.Reactor.{Reactor, check_exists}
use zbluenet.NetThread.{command, close_socket, send_net_command_close}
use zbluenet.NetThread.Encoding.{IsAlive}
use zbluenet.NetThread.Sessions.{close_socket_lem}
use zbluenet.Client.{Client, disconnect, on_close}
use zbluenet.Client.Timer.{start_connect_timer_lem}

module _ (api : MessageApi) where
  open api use {Message}

  -- A client that is not connected, told its service of the close if it was, and waits for one
  -- timer.
  pub record Reconnects (now : Timestamp) (c d : Client api) : Type 0 where
    pub alive : IsAlive api d.thread
    pub down : d.connected ≡ false
    pub waits :
        (d.reconnect_timer ≡ pos (c.thread.reactor.timer_heap.timer_id + 1))
        × (view d.thread.reactor.timer_heap (c.thread.reactor.timer_heap.timer_id + 1)
            ≡ some (add_millisecond now c.reconnect_interval_ms, c.reconnect_interval_ms, pos 1))
    pub single :
        (id : ℕ)
        → c.reconnect_timer ≡ pos id
        → id ≤ c.thread.reactor.timer_heap.timer_id
        → view d.thread.reactor.timer_heap id ≡ none
    pub gone : c.connected ≡ true → check_exists c.socket_id d.thread.reactor ≡ false
    pub told : d.thread.told ≡ (
        if c.connected
        then c.thread.told ++ command api close c.thread.id c.socket_id ∷ []
        else c.thread.told)

  -- The connection is gone, and the rest is as it was.
  record Dropped (c d : Client api) : Type 0 where
    alive : IsAlive api d.thread
    down : d.connected ≡ false
    heap : d.thread.reactor.timer_heap ≡ c.thread.reactor.timer_heap
    interval : d.reconnect_interval_ms ≡ c.reconnect_interval_ms
    timer : d.reconnect_timer ≡ c.reconnect_timer
    gone : c.connected ≡ true → check_exists c.socket_id d.thread.reactor ≡ false
    told : d.thread.told ≡ (
        if c.connected
        then c.thread.told ++ command api close c.thread.id c.socket_id ∷ []
        else c.thread.told)

  disconnect_lem : (c : Client api) → IsAlive api c.thread → Dropped c (disconnect api c)
  unfolding disconnect close_socket send_net_command_close Reactor.close check_exists
  disconnect_lem c v =
      let closed = close_socket_lem api c.socket_id c.thread v in
      record {
        alive = elim (Bool-cases c.connected) [
          | inl up ↦ rw up closed.alive
          | inr down ↦ rw down v
        ];
        down = ground arith;
        heap = ground arith;
        interval = ground arith;
        timer = ground arith;
        gone = λ up. ground (arith, up, closed.gone.0);
        told = ground arith;
      }

  moved :
      (now : Timestamp) (heap : Impl) {before after : Impl} {long wait : ℕ}
      → before ≡ after
      → long ≡ wait
      → view heap (before.timer_id + 1) ≡ some (add_millisecond now long, long, pos 1)
      → view heap (after.timer_id + 1) ≡ some (add_millisecond now wait, wait, pos 1)
  moved now heap e f g =
      ap (λ (h : Impl). view heap (h.timer_id + 1)) (sym e)
      ∙ (g ∙ ap (λ n. some (add_millisecond now n, n, pos 1)) f)

  -- On a live client, while the 64-bit counter of timers has an id left, onClose ends. The client
  -- stays live and is not connected: the socket does not exist any more, and the service is told
  -- of the close if there was a connection. The client's old timer is gone from the heap, if it was
  -- there, and one new timer waits, due after the reconnect interval, whose id is the client's.
  pub on_close_lem :
      (now : Timestamp) (c : Client api)
      → IsNormal now
      → IsAlive api c.thread
      → c.thread.reactor.timer_heap.timer_id + 1 < 2 ^ 63
      → Ends (Reconnects now c) (on_close api now c)
  unfolding on_close check_exists
  on_close_lem now c normal v room =
      let s = disconnect_lem c v in
      Ends-map (start_connect_timer_lem api now (disconnect api c) normal s.alive (rw s.heap room))
        λ d r. record {
          alive = r.alive;
          down = ap (λ (e : Client api). e.connected) r.same ∙ s.down;
          waits = (
            r.fresh ∙ ap (λ (h : Impl). pos (h.timer_id + 1)) s.heap,
            moved now d.thread.reactor.timer_heap s.heap s.interval r.waits,
          );
          single = λ id h old. r.single id (s.timer ∙ h) (rw s.heap old);
          gone = λ up.
              ap (λ (e : Client api). check_exists c.socket_id e.thread.reactor) r.same ∙ s.gone up;
          told = ap (λ (e : Client api). e.thread.told) r.same ∙ s.told;
        }
