-- ===== src/Reactor/Running.antt =====
-- What a running reactor keeps, and that a connection can be stored in it.
use zbluenet.Base.{
  ℕ, ◌+◌, ◌≤◌, ◌<◌, ◌≡◌, ◌≢◌, ◌⊎◌, sym, ap, ◌∙◌, subst, arith, none, some, inl, inr, length, max,
  ◌==◌, Bool-cases,
}
use zbluenet.Timers.{update}
use zbluenet.Buffer.Invariant.{max_size}
use zbluenet.Connection.{Connection, connected, pending_error}
use zbluenet.Connection.Sending.{IsSound}
use zbluenet.Reactor.{Sizes, Reactor}
use zbluenet.Reactor.Sockets.{IsAgreed, is_some}
use zbluenet.Base.Int.{pos}
use zbluenet.Time.{Timestamp}
use zbluenet.Reactor.Pairs.{IsTimed, Waits}

-- The greatest frame, and the greatest storage that a write buffer gets.
abbrev pub longest : ℕ
longest = 65540

abbrev pub storage_bound : Sizes → ℕ
storage_bound s =
    max s.write_buffer_init_size
      (s.write_buffer_max_size + s.write_buffer_expand_size + s.write_buffer_expand_size)

-- A write buffer has a limit, and its storage has room for it and a frame.
pub record IsConfigured (s : Sizes) : Type 0 where
  pub limited : 0 < s.write_buffer_max_size
  pub expands : 0 < s.write_buffer_expand_size
  pub roomy : storage_bound s + longest + s.write_buffer_expand_size ≤ max_size

-- A connection in its place.
pub record IsPlaced (s : Sizes) (c : Connection) : Type 0 where
  pub sound : IsSound c
  pub bounded : length c.write_buffer.buffer ≤ storage_bound s
  pub expand_size : c.write_buffer.expand_size ≡ s.write_buffer_expand_size

pub record IsRunning (r : Reactor) : Type 0 where
  pub configured : IsConfigured r.sizes
  pub agreed : IsAgreed r
  pub timed : IsTimed r
  -- No timer is to report an error of a connection without one.
  pub quiet :
      (id : ℕ) (c : Connection)
      → r.connections id ≡ some c
      → c.status ≡ connected
      → r.socket_to_timer id ≡ none
  pub placed : (id : ℕ) (c : Connection) → r.connections id ≡ some c → IsPlaced r.sizes c

module _ (r : Reactor) (v : IsRunning r) (id : ℕ) (c : Connection)
    (found : r.connections id ≡ some c) where
  -- The connection with another state.
  abbrev pub stored : Connection → Reactor
  stored d = record r { connections = update r.connections id (some d) }

  pub stored-IsTimed : (d : Connection) → IsTimed (stored d)
  stored-IsTimed d = record {
    paired = record { to_timer = v.timed.paired.to_timer; to_socket = v.timed.paired.to_socket };
    heap = v.timed.heap;
    started = v.timed.started;
  }

  stored-IsAgreed : (d : Connection) → IsAgreed (stored d)
  stored-IsAgreed d j = ground (arith, v.agreed j, v.agreed id, found)

  stored-cases :
      (d e : Connection) (j : ℕ)
      → (stored d).connections j ≡ some e
      → ((j ≡ id) × (d ≡ e)) ⊎ ((j ≢ id) × (r.connections j ≡ some e))
  stored-cases d e j h = elim (Bool-cases (id == j)) [
    | inl same ↦ inl (ground arith, grind (arith, h))
    | inr other ↦ inr (ground arith, grind (arith, h))
  ]

  stored-IsPlaced :
      (d : Connection)
      → IsPlaced r.sizes d
      → (j : ℕ) (e : Connection) → (stored d).connections j ≡ some e
      → IsPlaced r.sizes e
  stored-IsPlaced d p j e h = elim (stored-cases d e j h) [
    | inl (_, same) ↦ subst (IsPlaced r.sizes) same p
    | inr (_, old) ↦ v.placed j e old
  ]

  -- The connection stored with no error.
  pub stored-IsRunning :
      (d : Connection)
      → IsPlaced r.sizes d
      → (d.status ≡ connected → c.status ≡ connected)
      → IsRunning (stored d)
  stored-IsRunning d p alive = record {
    configured = v.configured;
    agreed = stored-IsAgreed d;
    timed = stored-IsTimed d;
    quiet = λ j e h up. elim (stored-cases d e j h) [
      | inl (here, same) ↦
          ap r.socket_to_timer here
          ∙ v.quiet id c found (alive (ap (λ (k : Connection). k.status) same ∙ up))
      | inr (_, old) ↦ v.quiet j e old up
    ];
    placed = stored-IsPlaced d p;
  }

  -- The connection stored with an error, which a timer is started for.
  pub failed-IsRunning :
      (now : Timestamp) (d : Connection) (t : Reactor)
      → IsPlaced r.sizes d
      → d.status ≡ pending_error
      → Waits now (pos 0) id (stored d) t
      → IsRunning t
  failed-IsRunning now d t p down (timed, waits, others, _, sizes, sockets, connections, _) =
      record {
        configured = subst IsConfigured (sym sizes) v.configured;
        agreed = λ j.
            ap (λ f. f j) sockets ∙ stored-IsAgreed d j ∙ ap (λ f. is_some (f j)) (sym connections);
        timed = timed;
        quiet = λ j e h up. elim (stored-cases d e j (sym (ap (λ f. f j) connections) ∙ h)) [
          | inl (_, same) ↦ absurd (grind (arith, same, up, down))
          | inr (other, old) ↦ others j other ∙ v.quiet j e old up
        ];
        placed = λ j e h.
            subst (λ s. IsPlaced s e) (sym sizes)
              (stored-IsPlaced d p j e (sym (ap (λ f. f j) connections) ∙ h));
      }
