-- ===== src/Reactor/Delivery.antt =====
-- sendMessage on the reactor: what it does to the connection, and what it keeps.
use zbluenet.Base.{
  ℕ, ◌+◌, ◌-◌, ◌^◌, ◌≤◌, ◌<◌, ◌≡◌, ◌≢◌, ◌⊎◌, refl, ap, ◌∙◌, subst, arith, Bool, true, false, List,
  ◌++◌, none, some, inl, inr, length, take, Ends, ends, Ends-bind, Ends-inv, Option-cases,
}
use zbluenet.Base.Int.{pos}
use zbluenet.Time.{Timestamp}
use zbluenet.Time.Laws.{IsNormal}
use zbluenet.Buffer.Invariant.{max_size}
use zbluenet.Connection.{
  Connection, Status, no_status, connecting, connected, peer_closed, pending_error, is_connected,
  SendResult, Sent, send_message,
}
use zbluenet.Connection.Sending.{outgoing, accepted, Sends, send_message_lem}
use zbluenet.Reactor.{Reactor, after_send_message, send_message_to, is_connected_socket}
use zbluenet.Reactor.Pairs.{add_socket_timer_lem, IsDue, Waits-IsDue, Waits-new}
use zbluenet.Reactor.Running.{
  longest, IsPlaced, IsRunning, stored, stored-IsTimed, stored-IsRunning, failed-IsRunning,
}

-- The bytes of the message that are on their way after the call, `k` of them taken at once.
abbrev pub OnWay : Bool → List ℕ → ℕ → Connection → Connection → Type 0
OnWay true message k c d =
    (outgoing d ≡ outgoing c ++ (take k message ++ take (length message - k) message))
    × (d.status ≡ connected)
    × (d.wire ≡ c.wire ++ take k message)
OnWay false message k c d =
    (outgoing d ≡ outgoing c ++ take k message)
    × (d.status ≡ pending_error)
    × (d.wire ≡ c.wire ++ take k message)

-- What sendMessage to a socket leaves.
pub record Delivered (id : ℕ) (message : List ℕ) (answer : SendResult) (r : Reactor)
    (out : Bool × Reactor) : Type 0 where
  pub running : IsRunning out.1
  pub sizes_kept : out.1.sizes ≡ r.sizes
  pub counted : out.1.timer_heap.timer_id ≤ r.timer_heap.timer_id + 1
  pub others : (j : ℕ) → j ≢ id → out.1.connections j ≡ r.connections j
  pub dead :
      is_connected_socket id r ≡ false → (out.0 ≡ false) × (out.1.connections id ≡ r.connections id)
  pub live :
      (c : Connection)
      → r.connections id ≡ some c
      → c.status ≡ connected
      → (d : Connection) × (out.1.connections id ≡ some d)
        × OnWay out.0 message (accepted answer c) c d
  -- A timer is started for a connection that has failed, and no other connection loses its own.
  pub reported :
      (c : Connection)
      → r.connections id ≡ some c
      → c.status ≡ connected
      → out.0 ≡ false
      → IsDue id out.1
  pub due_kept : (j : ℕ) → j ≢ id → IsDue j r → IsDue j out.1

-- The socket's `::send` takes no more than it is given.
abbrev pub IsHonest : ℕ → List ℕ → SendResult → Reactor → Type 0
IsHonest id message answer r =
    (c : Connection) → r.connections id ≡ some c → accepted answer c ≤ length message

module _ (r : Reactor) (v : IsRunning r) (id : ℕ) (c : Connection)
    (found : r.connections id ≡ some c) where
  module _ (now : Timestamp) (message : List ℕ) (answer : SendResult) (normal : IsNormal now)
      (room : r.timer_heap.timer_id + 1 < 2 ^ 63) (alive : c.status ≡ connected) where
    abbrev k : ℕ
    k = accepted answer c

    abbrev sent_bytes : List ℕ
    sent_bytes = take k message ++ take (length message - k) message

    up : is_connected_socket id r ≡ true
    unfolding is_connected_socket
    up = rw (found, is_connected_socket) (ap is_connected alive)

    -- The fields that do not depend on the result.
    delivered :
        (ok : Bool) (t : Reactor) (d : Connection)
        → IsRunning t
        → t.sizes ≡ r.sizes
        → t.timer_heap.timer_id ≤ r.timer_heap.timer_id + 1
        → t.connections ≡ (stored r v id c found d).connections
        → OnWay ok message k c d
        → (ok ≡ false → IsDue id t)
        → ((j : ℕ) → j ≢ id → IsDue j r → IsDue j t)
        → Delivered id message answer r (ok, t)
    delivered ok t d running sizes counted connections way reported kept =
        let here : t.connections id ≡ some d = ap (λ f. f id) connections ∙ ground arith in
        record {
          running = running;
          sizes_kept = sizes;
          counted = counted;
          others = λ j n. ap (λ f. f j) connections ∙ ground arith;
          dead = λ down. absurd (grind (arith, down, up));
          live = λ e h _.
              let same : c ≡ e = grind (arith, found, h) in
              (d, here, subst (λ x. OnWay ok message (accepted answer x) x d) same way);
          reported = λ e h _. reported;
          due_kept = kept;
        }

    sent-IsPlaced :
        (s : Sent)
        → Sends r.sizes.write_buffer_max_size none c sent_bytes (take k message) s
        → IsPlaced r.sizes s.connection
    sent-IsPlaced s q =
        let p = v.placed id c found in
        let tight = q.bounded v.configured.limited in
        record {
          sound = q.sound;
          bounded = omega (arith, tight, p.bounded, p.expand_size);
          expand_size = q.expand_kept ∙ p.expand_size;
        }

    after_lem :
        (s : Sent) (ok : Bool)
        → s.result ≡ ok
        → Sends r.sizes.write_buffer_max_size none c sent_bytes (take k message) s
        → Ends (Delivered id message answer r) (after_send_message now id r s)
    unfolding after_send_message
    after_lem s true e q =
        let (out, same, timer) = rw e at q.branch in
        let none_called : s.completed ≡ none = grind (arith, q.completes) in
        rw (timer, none_called, e)
          (ends (
            delivered true (stored r v id c found s.connection) s.connection
              (stored-IsRunning r v id c found s.connection (sent-IsPlaced s q) (λ _. alive)) refl
              (omega arith) refl (out, same ∙ alive, q.on_wire) (λ no. absurd (grind (arith, no)))
              (λ j n due. due)))
    after_lem s false e q =
        let (out, down, timer) = rw e at q.branch in
        let (t, ran, w) = Ends-inv (
          add_socket_timer_lem now id (pos 0) (stored r v id c found s.connection)
            (stored-IsTimed r v id c found s.connection) normal room (v.quiet id c found alive)) in
        let (_, _, _, counted, sizes, _, connections, _) = w in
        rw (timer, ran, e)
          (ends (
            delivered false t s.connection
              (failed-IsRunning r v id c found now s.connection t (sent-IsPlaced s q) down w) sizes
              (omega arith) connections (out, down, q.on_wire)
              (λ _. Waits-new now id (stored r v id c found s.connection) t w)
              (λ j n due.
                Waits-IsDue now id j (stored r v id c found s.connection) t w n
                  (due.0, due.1, due.2, due.3))))

    live_lem :
        accepted answer c ≤ length message
        → length message ≤ longest
        → Ends (Delivered id message answer r) (send_message_to now id message none answer r)
    unfolding send_message_to
    live_lem honest short =
        let p = v.placed id c found in
        let big : length c.write_buffer.buffer + length message + c.write_buffer.expand_size
            ≤ max_size =
          omega (arith, p.bounded, p.expand_size, v.configured.roomy) in
        rw (found, send_message_to)
          (Ends-bind
            (send_message_lem r.sizes.write_buffer_max_size message none c p.sound big answer alive
              honest)
            λ s q. after_lem s s.result refl q)

  -- A connection that is not connected.
  dead_lem :
      (now : Timestamp) (message : List ℕ) (answer : SendResult)
      → is_connected c.status ≡ false
      → Ends (Delivered id message answer r) (send_message_to now id message none answer r)
  unfolding send_message_to send_message after_send_message
  dead_lem now message answer down =
      rw (found, send_message_to, down)
        (ends (record {
          running = stored-IsRunning r v id c found c (v.placed id c found) (λ up. up);
          sizes_kept = refl;
          counted = omega arith;
          others = λ j n. ground arith;
          dead = λ _. (refl, rw found (ground arith));
          live = λ e h up. absurd (grind (arith, found, h, up, down));
          reported = λ e h up. absurd (grind (arith, found, h, up, down));
          due_kept = λ j n due. due;
        }))

pub status-cases : (s : Status) → (s ≡ connected) ⊎ (is_connected s ≡ false)
status-cases no_status = inr refl
status-cases connecting = inr refl
status-cases connected = inl refl
status-cases peer_closed = inr refl
status-cases pending_error = inr refl

pub send_message_to_lem :
    (now : Timestamp) (id : ℕ) (message : List ℕ) (answer : SendResult) (r : Reactor)
    → IsRunning r
    → IsNormal now
    → r.timer_heap.timer_id + 1 < 2 ^ 63
    → IsHonest id message answer r
    → length message ≤ longest
    → Ends (Delivered id message answer r) (send_message_to now id message none answer r)
unfolding send_message_to
send_message_to_lem now id message answer r v normal room honest short =
    elim (Option-cases (r.connections id)) [
      | inl missing ↦
          rw (missing, send_message_to)
            (ends (record {
              running = v;
              sizes_kept = refl;
              counted = omega arith;
              others = λ j n. refl;
              dead = λ _. (refl, refl);
              live = λ e h up. absurd (grind (arith, missing, h));
              reported = λ e h up. absurd (grind (arith, missing, h));
              due_kept = λ j n due. due;
            }))
      | inr (c, found) ↦ elim (status-cases c.status) [
        | inl alive ↦
            live_lem r v id c found now message answer normal room alive (honest c found) short
        | inr down ↦ dead_lem r v id c found now message answer down
      ]
    ]
