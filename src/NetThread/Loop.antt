-- ===== src/NetThread/Loop.antt =====
-- The loop of onNetCommand over the queue: every command in its order, up to a null pointer.
use zbluenet.Base.{
  ℕ, suc, ◌+◌, ◌*◌, ◌^◌, ◌≤◌, ◌<◌, ◌≡◌, ◌≢◌, ◌⊎◌, refl, sym, ap, ◌∙◌, subst, arith, Bool, true,
  false, inl, inr, List, [], ◌∷◌, Option, none, some, length, max, done, Ends, ends, Ends-bind,
  Ends-map, Bool-cases,
}
use zbluenet.Protocol.{
  MessageApi, NetCommand, CommandType, new, message, enable_broadcast, disable_broadcast, broadcast,
  close,
}
use zbluenet.Reactor
use zbluenet.Reactor.{Reactor, is_connected_socket}
use zbluenet.NetThread.{
  Round, NetThread, insert, erase, on_socket_command, process, process_as, on_net_command,
}
use zbluenet.NetThread.Encoding.{IsRound, Fits, IsAlive}
use zbluenet.NetThread.Sets.{insert-IsAscending, erase-IsAscending, length-insert, length-erase}
use zbluenet.NetThread.Broadcasts.{Broadcast, on_broadcast_lem}
use zbluenet.NetThread.Commands.{Messaged, on_message_lem, close-IsRunning, with_reactor, with_list}

suc_times : (n k : ℕ) → suc n * k ≡ n * k + k
suc_times n k = grind arith

close-counted :
    (id : ℕ) (r : Reactor) (n : ℕ)
    → (Reactor.close id r).timer_heap.timer_id ≤ r.timer_heap.timer_id + n
unfolding Reactor.close
close-counted id r n = omega arith

is_broadcast : (type : CommandType) → (type ≡ broadcast) ⊎ (type ≢ broadcast)
is_broadcast broadcast = inl refl
is_broadcast new = inr λ b. absurd (grind (arith, b))
is_broadcast close = inr λ b. absurd (grind (arith, b))
is_broadcast message = inr λ b. absurd (grind (arith, b))
is_broadcast enable_broadcast = inr λ b. absurd (grind (arith, b))
is_broadcast disable_broadcast = inr λ b. absurd (grind (arith, b))

module _ (api : MessageApi) where
  open api use {Message}

  -- What a command does to the thread, by its type; all but a broadcast only while the socket is
  -- connected.
  abbrev pub Acts :
      Round → NetCommand Message → NetThread api → NetThread api → CommandType → Type 0
  Acts round cmd t u close = u ≡ record t { reactor = Reactor.close cmd.id.socket_id t.reactor }
  Acts round cmd t u message = (m : Message) → cmd.body ≡ some m → Messaged api round cmd m t u
  Acts round cmd t u enable_broadcast =
      u ≡ record t { broadcast_list = insert cmd.id.socket_id t.broadcast_list }
  Acts round cmd t u disable_broadcast =
      u ≡ record t { broadcast_list = erase cmd.id.socket_id t.broadcast_list }
  Acts round cmd t u new = u ≡ t
  Acts round cmd t u broadcast = (m : Message) → cmd.body ≡ some m → Broadcast api round cmd m t u

  -- The type is a broadcast, or the socket is connected.
  abbrev due_as : CommandType → NetCommand Message → NetThread api → Bool
  due_as broadcast cmd t = true
  due_as _ cmd t = is_connected_socket cmd.id.socket_id t.reactor

  due_as-other :
      (type : CommandType) (cmd : NetCommand Message) (t : NetThread api)
      → type ≢ broadcast
      → due_as type cmd t ≡ is_connected_socket cmd.id.socket_id t.reactor
  due_as-other broadcast cmd t other = absurd (other refl)
  due_as-other new cmd t other = refl
  due_as-other close cmd t other = refl
  due_as-other message cmd t other = refl
  due_as-other enable_broadcast cmd t other = refl
  due_as-other disable_broadcast cmd t other = refl

  unfoldable pub is_due : NetCommand Message → NetThread api → Bool
  is_due cmd t = due_as cmd.type cmd t

  pub record Processed (round : Round) (cmd : NetCommand Message) (t u : NetThread api)
      : Type 0 where
    pub alive : IsAlive api u
    pub counted :
        u.reactor.timer_heap.timer_id
        ≤ t.reactor.timer_heap.timer_id + max 1 (length t.broadcast_list)
    pub grows : length u.broadcast_list ≤ length t.broadcast_list + 1
    pub due : is_due cmd t ≡ true → Acts round cmd t u cmd.type
    pub idle : is_due cmd t ≡ false → u ≡ t

  -- A command that sends has a message.
  abbrev pub HasBody : NetCommand Message → Type 0
  HasBody cmd = (cmd.type ≡ message) ⊎ (cmd.type ≡ broadcast) → (m : Message) × (cmd.body ≡ some m)

  abbrev pub Room : NetThread api → Type 0
  Room t = t.reactor.timer_heap.timer_id + max 1 (length t.broadcast_list) < 2 ^ 63

  module _ (round : Round) (cmd : NetCommand Message) (t : NetThread api) (fits : Fits api)
      (h : IsRound round) (v : IsAlive api t) (has : HasBody cmd) (room : Room t) where
    untouched : is_due cmd t ≡ false → Processed round cmd t t
    untouched off = record {
      alive = v;
      counted = omega arith;
      grows = omega arith;
      due = λ on. absurd (grind (arith, on, off));
      idle = λ _. refl;
    }

    acted :
        (u : NetThread api) (type : CommandType)
        → cmd.type ≡ type
        → is_due cmd t ≡ true
        → IsAlive api u
        → u.reactor.timer_heap.timer_id
          ≤ t.reactor.timer_heap.timer_id + max 1 (length t.broadcast_list)
        → length u.broadcast_list ≤ length t.broadcast_list + 1
        → Acts round cmd t u type
        → Processed round cmd t u
    acted u type e on alive counted grows acts = record {
      alive = alive;
      counted = counted;
      grows = grows;
      due = λ _. subst (Acts round cmd t u) (sym e) acts;
      idle = λ off. absurd (grind (arith, on, off));
    }

    module _ (on : is_connected_socket cmd.id.socket_id t.reactor ≡ true) where
      -- The socket is connected.
      process_of :
          (type : CommandType)
          → cmd.type ≡ type
          → is_due cmd t ≡ true
          → type ≢ broadcast
          → Ends (Processed round cmd t) (process_as api type round cmd t)
      unfolding process_as on_socket_command
      process_of close e due other =
          let r = Reactor.close cmd.id.socket_id t.reactor in
          rw on (
            ends (
              acted (record t { reactor = r }) close e due
                (with_reactor api t v r t.told
                  (close-IsRunning cmd.id.socket_id t.reactor v.running))
                (close-counted cmd.id.socket_id t.reactor _) (omega arith) refl))
      process_of message e due other =
          let (m, body) = has (inl e) in
          rw on (
            Ends-map (on_message_lem api round cmd m t fits h v body (omega (arith, room))) λ u q.
              acted u message e due q.alive (omega (arith, q.counted))
                (omega (arith, ap length q.list_kept))
                (λ n has_n.
                  subst (λ x. Messaged api round cmd x t u) (grind (arith, body, has_n)) q))
      process_of enable_broadcast e due other =
          let ids = insert cmd.id.socket_id t.broadcast_list in
          rw on (
            ends (
              acted (record t { broadcast_list = ids }) enable_broadcast e due
                (with_list api t v ids
                  (insert-IsAscending cmd.id.socket_id t.broadcast_list v.ascending))
                (omega arith) (length-insert cmd.id.socket_id t.broadcast_list) refl))
      process_of disable_broadcast e due other =
          let ids = erase cmd.id.socket_id t.broadcast_list in
          rw on (
            ends (
              acted (record t { broadcast_list = ids }) disable_broadcast e due
                (with_list api t v ids
                  (erase-IsAscending cmd.id.socket_id t.broadcast_list v.ascending))
                (omega arith) (omega (arith, length-erase cmd.id.socket_id t.broadcast_list)) refl))
      process_of new e due other =
          rw on (ends (acted t new e due v (omega arith) (omega arith) refl))
      process_of broadcast e due other = absurd (other refl)

    skipped :
        (type : CommandType)
        → type ≢ broadcast
        → is_connected_socket cmd.id.socket_id t.reactor ≡ false
        → process_as api type round cmd t ≡ done t
    unfolding process_as
    skipped broadcast other off = absurd (other refl)
    skipped close other off = rw off refl
    skipped message other off = rw off refl
    skipped enable_broadcast other off = rw off refl
    skipped disable_broadcast other off = rw off refl
    skipped new other off = rw off refl

    broadcast_of :
        cmd.type ≡ broadcast
        → is_due cmd t ≡ true
        → Ends (Processed round cmd t) (process_as api broadcast round cmd t)
    unfolding process_as
    broadcast_of e due =
        let (m, body) = has (inr e) in
        Ends-map (on_broadcast_lem api round cmd m t fits h v body (omega (arith, room))) λ u q.
          acted u broadcast e due q.alive (omega (arith, q.counted))
            (omega (arith, ap length q.list_kept))
            (λ n has_n. subst (λ x. Broadcast api round cmd x t u) (grind (arith, body, has_n)) q)

    process_as_lem :
        (type : CommandType)
        → cmd.type ≡ type
        → (type ≡ broadcast) ⊎ (type ≢ broadcast)
        → Ends (Processed round cmd t) (process_as api type round cmd t)
    unfolding is_due
    process_as_lem type e (inl b) =
        subst (λ k. Ends (Processed round cmd t) (process_as api k round cmd t)) (sym b)
          (broadcast_of (e ∙ b) (ap (λ k. due_as k cmd t) (e ∙ b)))
    process_as_lem type e (inr other) =
        let same : is_due cmd t ≡ is_connected_socket cmd.id.socket_id t.reactor =
          ap (λ k. due_as k cmd t) e ∙ due_as-other type cmd t other in
        elim (Bool-cases (is_connected_socket cmd.id.socket_id t.reactor)) [
          | inl on ↦ process_of on type e (same ∙ on) other
          | inr off ↦
              subst (Ends (Processed round cmd t)) (sym (skipped type other off))
                (ends (untouched (same ∙ off)))
        ]

    -- A command on a live net thread, with a message if it sends one, with room for the timers
    -- that report errors, and with sockets that take no more than they are given, returns and
    -- leaves the thread live. A broadcast does what Broadcast says and a MESSAGE to a connected
    -- socket what Messaged says; CLOSE closes the socket in the reactor, and ENABLE_BROADCAST and
    -- DISABLE_BROADCAST change the set alone. Any command but a broadcast does nothing if its
    -- socket is not connected.
    pub process_lem : Ends (Processed round cmd t) (process api round cmd t)
    unfolding process
    process_lem = process_as_lem cmd.type refl (is_broadcast cmd.type)

  -- The items behind the first null pointer, and whether there is one.
  abbrev pub after_null : List (Option (NetCommand Message)) → List (Option (NetCommand Message))
  after_null [] = []
  after_null (none ∷ queue) = queue
  after_null (some cmd ∷ queue) = after_null queue

  abbrev pub has_null : List (Option (NetCommand Message)) → Bool
  has_null [] = false
  has_null (none ∷ queue) = true
  has_null (some cmd ∷ queue) = has_null queue

  abbrev pub AllBodies : List (Option (NetCommand Message)) → Type 0
  AllBodies [] = Unit
  AllBodies (none ∷ queue) = Unit
  AllBodies (some cmd ∷ queue) = HasBody cmd × AllBodies queue

  -- What the commands do one after the other, up to the first null pointer.
  abbrev pub Handles :
      (ℕ → Round) → List (Option (NetCommand Message)) → NetThread api → NetThread api → Type 0
  Handles rounds [] t u = u ≡ t
  Handles rounds (none ∷ queue) t u = u ≡ record t { quit = true }
  Handles rounds (some cmd ∷ queue) t u =
      (w : NetThread api) × Processed (rounds 0) cmd t w × Handles (λ n. rounds (suc n)) queue w u

  abbrev pub Ran :
      (ℕ → Round)
      → List (Option (NetCommand Message))
      → NetThread api
      → NetThread api × List (Option (NetCommand Message))
      → Type 0
  Ran rounds queue t (u, rest) =
      IsAlive api u
      × (rest ≡ after_null queue)
      × (has_null queue ≡ true → u.quit ≡ true)
      × Handles rounds queue t u

  -- onNetCommand on a live net thread, with a message in each command that sends one, room for
  -- the timers that report errors, and sockets that take no more than they are given, returns and
  -- leaves the thread live. The commands up to the first null pointer do one after the other what
  -- Processed says of each; at the null pointer the thread is told to quit, and the rest of the
  -- queue is left.
  pub on_net_command_lem :
      (rounds : ℕ → Round) (queue : List (Option (NetCommand Message))) (t : NetThread api)
      (most : ℕ)
      → Fits api
      → ((n : ℕ) → IsRound (rounds n))
      → IsAlive api t
      → AllBodies queue
      → length t.broadcast_list + length queue + 1 ≤ most
      → t.reactor.timer_heap.timer_id + length queue * most < 2 ^ 63
      → Ends (Ran rounds queue t) (on_net_command api rounds queue t)
  unfolding on_net_command
  on_net_command_lem rounds [] t most fits h v bodies small room =
      ends (v, refl, (λ e. absurd (grind (arith, e))), refl)
  on_net_command_lem rounds (none ∷ queue) t most fits h v bodies small room = ends (
    record {
      running = v.running;
      encodes = v.encodes;
      lower = v.lower;
      upper = v.upper;
      ascending = v.ascending;
    },
    refl,
    (λ _. refl),
    refl,
  )
  on_net_command_lem rounds (some cmd ∷ queue) t most fits h v (body, bodies) small room =
      let now = t.reactor.timer_heap.timer_id in
      let budget : now + (length queue * most + most) < 2 ^ 63 =
        omega (arith, room, suc_times (length queue) most) in
      Ends-bind (process_lem (rounds 0) cmd t fits (h 0) v body (omega arith)) λ u q.
        Ends-map
          (on_net_command_lem (λ n. rounds (suc n)) queue u most fits (λ n. h (suc n)) q.alive
            bodies (omega (arith, q.grows)) (omega (arith, q.counted)))
          λ out (alive, rest, quits, steps). (alive, rest, quits, (u, q, steps))
