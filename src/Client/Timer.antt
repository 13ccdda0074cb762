-- ===== src/Client/Timer.antt =====
-- The timer of a client that waits to connect again: the old one is stopped and a new one started.
use zbluenet.Base.{
  ℕ, zero, suc, ◌+◌, ◌^◌, ◌<◌, ◌≤◌, ◌≡◌, refl, sym, ap, ◌∙◌, subst, arith, false, none, some, done,
  ◌>>=◌, Ends, ends, Ends-bind, Ends-inv, ◌==◌, if◌then◌else◌,
}
use zbluenet.Base.Int.{ℤ, pos, negsuc, same_int}
use zbluenet.Time.{Timestamp, add_millisecond}
use zbluenet.Time.Laws.{IsNormal}
use zbluenet.Timers.{Impl}
use zbluenet.Timers.Valid.{IsValid, view}
use zbluenet.Timers.Add.{add_timer_lem}
use zbluenet.Timers.Remove.{remove_timer_lem}
use zbluenet.Protocol.{MessageApi}
use zbluenet.Reactor
use zbluenet.Reactor.{Reactor, check_exists}
use zbluenet.Reactor.Running.{IsRunning}
use zbluenet.NetThread.{NetThread, start_timer_of, stop_timer_of}
use zbluenet.NetThread.Encoding.{IsAlive}
use zbluenet.Client.{Client, minus_one, stop_connect_timer, start_connect_timer}

-- A reactor with other timers.
timers-IsRunning :
    (r : Reactor) (heap : Impl)
    → IsRunning r
    → IsValid heap
    → r.timer_heap.timer_id ≤ heap.timer_id
    → IsRunning (record r { timer_heap = heap })
timers-IsRunning r heap v valid more = record {
  configured = v.configured;
  agreed = v.agreed;
  timed = record {
    paired = record { to_timer = v.timed.paired.to_timer; to_socket = v.timed.paired.to_socket };
    heap = valid;
    started = λ t less. v.timed.started t (omega arith);
  };
  quiet = v.quiet;
  placed = v.placed;
}

module _ (api : MessageApi) where
  open api use {Message}

  timers-IsAlive :
      (t : NetThread api) (heap : Impl)
      → IsAlive api t
      → IsValid heap
      → t.reactor.timer_heap.timer_id ≤ heap.timer_id
      → IsAlive api (record t { reactor = record (t.reactor) { timer_heap = heap } })
  timers-IsAlive t heap v valid more = record {
    running = timers-IsRunning t.reactor heap v.running valid more;
    encodes = v.encodes;
    lower = v.lower;
    upper = v.upper;
    ascending = v.ascending;
  }

  -- What is left when the old timer is stopped.
  record Stopped (c d : Client api) : Type 0 where
    alive : IsAlive api d.thread
    counter : d.thread.reactor.timer_heap.timer_id ≡ c.thread.reactor.timer_heap.timer_id
    gone : (id : ℕ) → c.reconnect_timer ≡ pos id → view d.thread.reactor.timer_heap id ≡ none
    same : d ≡ record c {
      thread = record (c.thread) {
        reactor = record (c.thread.reactor) { timer_heap = d.thread.reactor.timer_heap };
      };
    }

  kept-Stopped :
      (c : Client api) (n : ℕ) → c.reconnect_timer ≡ negsuc n → IsAlive api c.thread → Stopped c c
  kept-Stopped c n e v = record {
    alive = v;
    counter = refl;
    gone = λ id h. absurd (grind (arith, e, h));
    same = refl;
  }

  stop_connect_timer_lem :
      (c : Client api) (timer : ℤ)
      → c.reconnect_timer ≡ timer
      → IsAlive api c.thread
      → Ends (Stopped c) (stop_connect_timer api c)
  unfolding stop_connect_timer stop_timer_of Reactor.stop_timer
  stop_connect_timer_lem c timer e v =
      let stop_of = λ (k : ℤ).
        if same_int k minus_one
        then done c
        else (stop_timer_of api k c.thread >>= λ t. done (record c { thread = t })) in
      subst (Ends (Stopped c)) (sym (ap stop_of e)) (stopped timer e)
    where
      stopped :
          (k : ℤ)
          → c.reconnect_timer ≡ k
          → Ends (Stopped c) (
              if same_int k minus_one
              then done c
              else (stop_timer_of api k c.thread >>= λ t. done (record c { thread = t })))
      stopped (negsuc zero) h = ends (kept-Stopped c zero h v)
      stopped (negsuc (suc n)) h =
          let apart : (suc n == 0) ≡ false = ground arith in
          rw apart (ends (kept-Stopped c (suc n) h v))
      stopped (pos id) h =
          let (heap, ran, (valid, views, counter)) =
            Ends-inv (remove_timer_lem c.thread.reactor.timer_heap id v.running.timed.heap) in
          rw ran (
            ends (record {
              alive = timers-IsAlive c.thread heap v valid (omega (arith, counter));
              counter = counter;
              gone =
                  λ j g. let here : id ≡ j = grind (arith, h, g) in views j ∙ ground (arith, here);
              same = refl;
            }))

  -- The new timer is the only one of the client's, and nothing else has changed.
  pub record Scheduled (now : Timestamp) (c d : Client api) : Type 0 where
    pub alive : IsAlive api d.thread
    pub fresh : d.reconnect_timer ≡ pos (c.thread.reactor.timer_heap.timer_id + 1)
    pub waits :
        view d.thread.reactor.timer_heap (c.thread.reactor.timer_heap.timer_id + 1)
        ≡ some (add_millisecond now c.reconnect_interval_ms, c.reconnect_interval_ms, pos 1)
    pub single :
        (id : ℕ)
        → c.reconnect_timer ≡ pos id
        → id ≤ c.thread.reactor.timer_heap.timer_id
        → view d.thread.reactor.timer_heap id ≡ none
    pub same : d ≡ record c {
      thread = record (c.thread) {
        reactor = record (c.thread.reactor) { timer_heap = d.thread.reactor.timer_heap };
      };
      reconnect_timer = d.reconnect_timer;
    }

  pub start_connect_timer_lem :
      (now : Timestamp) (c : Client api)
      → IsNormal now
      → IsAlive api c.thread
      → c.thread.reactor.timer_heap.timer_id + 1 < 2 ^ 63
      → Ends (Scheduled now c) (start_connect_timer api now c)
  unfolding start_connect_timer start_timer_of Reactor.start_timer
  start_connect_timer_lem now c normal v room =
      Ends-bind (stop_connect_timer_lem c c.reconnect_timer refl v) λ d s.
        let interval : d.reconnect_interval_ms ≡ c.reconnect_interval_ms =
          ap (λ (e : Client api). e.reconnect_interval_ms) s.same in
        let ((id, heap), ran, (fresh, counter, valid, views)) = Ends-inv (
          add_timer_lem now (pos d.reconnect_interval_ms) (pos 1) d.thread.reactor.timer_heap
            s.alive.running.timed.heap normal (omega (arith, s.counter, room))) in
        rw ran (
          ends (record {
            alive = timers-IsAlive d.thread heap s.alive valid (omega (arith, counter));
            fresh = fresh ∙ ap (λ n. pos (n + 1)) s.counter;
            waits =
                views (c.thread.reactor.timer_heap.timer_id + 1)
                ∙ ground (arith, s.counter, interval);
            single = λ j h old. views j ∙ ground (arith, s.counter, s.gone j h, old);
            same =
                ap
                  (λ (e : Client api). record e {
                    thread = record (e.thread) {
                      reactor = record (e.thread.reactor) { timer_heap = heap };
                    };
                    reconnect_timer = id;
                  })
                  s.same;
          }))
