-- ===== src/NetThread/Broadcasts.antt =====
-- A broadcast goes to every connected socket of the set, and to no other.
use zbluenet.Base.{
  ℕ, ◌+◌, ◌%◌, ◌^◌, ◌≤◌, ◌<◌, ◌≡◌, ◌≢◌, refl, sym, ap, ◌∙◌, subst, arith, Bool, false, inl, inr,
  List, [], ◌∷◌, none, some, length, All, count, ◌==◌, Ends, ends, Ends-bind, Ends-map, Bool-cases,
  Option-cases,
}
use zbluenet.Connection.{Connection, connected}
use zbluenet.Connection.Sending.{accepted}
use zbluenet.Buffer.Invariant.{contents}
use zbluenet.Protocol.{MessageApi, NetCommand}
use zbluenet.Protocol.Frames.{frame_bytes}
use zbluenet.Reactor.Pairs.{IsDue}
use zbluenet.Reactor.Delivery.{OnWay}
use zbluenet.NetThread.{Round, NetThread, send_to_all, on_broadcast}
use zbluenet.NetThread.Encoding.{
  IsAscending, IsRound, Fits, IsAlive, room_of, encode_command_lem, SentOne, send_encoded_lem,
}

above_of : (x j : ℕ) (xs : List ℕ) → All (λ y. x < y) xs → 0 < count j xs → x < j
above_of x j [] h inside = absurd (omega arith)
above_of x j (y ∷ ys) (less, rest) inside = elim (Bool-cases (y == j)) [
  | inl e ↦ ground arith
  | inr e ↦ above_of x j ys rest (ground arith)
]

apart_of : (x : ℕ) (xs : List ℕ) → All (λ y. x < y) xs → All (λ y. x ≢ y) xs
apart_of x [] h = h
apart_of x (y ∷ ys) (less, rest) = (ground arith, apart_of x ys rest)

module _ (api : MessageApi) where
  open api use {Message, encode}

  -- The connection's state before and after the call.
  abbrev pub Gets : Round → List ℕ → ℕ → NetThread api → NetThread api → Type 0
  Gets round frame j t u =
      (c : Connection)
      → t.reactor.connections j ≡ some c
      → c.status ≡ connected
      → (ok : Bool) × (d : Connection) × (u.reactor.connections j ≡ some d)
        × OnWay ok frame (accepted (round.answer j frame) c) c d
        × (ok ≡ false → IsDue j u.reactor)

  pub record SentAll (round : Round) (ids : List ℕ) (t u : NetThread api) : Type 0 where
    pub alive : IsAlive api u
    pub same : u ≡ record t { reactor = u.reactor }
    pub counted : u.reactor.timer_heap.timer_id ≤ t.reactor.timer_heap.timer_id + length ids
    pub others : (j : ℕ) → All (λ i. j ≢ i) ids → u.reactor.connections j ≡ t.reactor.connections j
    pub each : (j : ℕ) → 0 < count j ids → Gets round (contents t.encode_buffer) j t u
    pub due_kept : (j : ℕ) → All (λ i. j ≢ i) ids → IsDue j t.reactor → IsDue j u.reactor

  send_to_all-step :
      (round : Round) (id : ℕ) (ids : List ℕ) (t w u : NetThread api)
      → IsAscending (id ∷ ids)
      → SentOne api round id t w
      → SentAll round ids w u
      → SentAll round (id ∷ ids) t u
  send_to_all-step round id ids t w u (above, _) one all =
      let (ok, q) = one.delivered in
      let frame : contents w.encode_buffer ≡ contents t.encode_buffer =
        ap (λ (n : NetThread api). contents n.encode_buffer) one.same in
      let frame_of_t = contents t.encode_buffer in
      let first : Gets round frame_of_t id t u = λ c found up.
        let (d, moved, way) = q.live c found up in
        (
          ok,
          d,
          all.others id (apart_of id ids above) ∙ moved,
          way,
          λ failed. all.due_kept id (apart_of id ids above) (q.reported c found up failed),
        ) in
      let later : (j : ℕ) → 0 < count j ids → Gets round frame_of_t j t u = λ j inside c found up.
        let apart : j ≢ id = ground (arith, above_of id j ids above inside) in
        subst (λ f. Gets round f j w u) frame (all.each j inside) c (q.others j apart ∙ found) up in
      record {
        alive = all.alive;
        same = all.same ∙ ap (λ (n : NetThread api). record n { reactor = u.reactor }) one.same;
        counted = omega (arith, all.counted, q.counted);
        others = λ j (apart, rest). all.others j rest ∙ q.others j apart;
        each = λ j inside. elim (Bool-cases (id == j)) [
          | inl e ↦ subst (λ i. Gets round frame_of_t i t u) (ground arith) first
          | inr e ↦ later j (ground arith)
        ];
        due_kept = λ j (apart, rest) due. all.due_kept j rest (q.due_kept j apart due);
      }

  pub send_to_all_lem :
      (round : Round) (ids : List ℕ) (t : NetThread api)
      → IsRound round
      → IsAlive api t
      → IsAscending ids
      → t.reactor.timer_heap.timer_id + length ids < 2 ^ 63
      → Ends (SentAll round ids t) (send_to_all api round ids t)
  unfolding send_to_all
  send_to_all_lem round [] t h v order room = ends (record {
    alive = v;
    same = refl;
    counted = omega arith;
    others = λ j apart. refl;
    each = λ j inside. absurd (omega arith);
    due_kept = λ j apart due. due;
  })
  send_to_all_lem round (id ∷ ids) t h v order room =
      Ends-bind (send_encoded_lem api round id t h v (omega arith)) λ w one.
        let (ok, q) = one.delivered in
        Ends-map (send_to_all_lem round ids w h one.alive order.1 (omega (arith, q.counted)))
          λ u all. send_to_all-step round id ids t w u order one all

  -- What a broadcast leaves, when its message encodes to `payload`, and when it does not encode.
  pub record Broadcast (round : Round) (cmd : NetCommand Message) (m : Message)
      (t u : NetThread api) : Type 0 where
    pub alive : IsAlive api u
    pub list_kept : u.broadcast_list ≡ t.broadcast_list
    pub told_kept : u.told ≡ t.told
    pub counted :
        u.reactor.timer_heap.timer_id ≤ t.reactor.timer_heap.timer_id + length t.broadcast_list
    pub others :
        (j : ℕ)
        → All (λ i. j ≢ i) t.broadcast_list
        → u.reactor.connections j ≡ t.reactor.connections j
    pub each :
        (payload : List ℕ) (j : ℕ)
        → encode m (room_of api t) ≡ some payload
        → 0 < count j t.broadcast_list
        → Gets round (frame_bytes (cmd.message_id % 2 ^ 16) payload) j t u
    pub failed : encode m (room_of api t) ≡ none → u.reactor ≡ t.reactor

  to_all-Broadcast :
      (round : Round) (cmd : NetCommand Message) (m : Message) (t w u : NetThread api)
      (payload : List ℕ)
      → encode m (room_of api t) ≡ some payload
      → w ≡ record t { encode_buffer = w.encode_buffer }
      → contents w.encode_buffer ≡ frame_bytes (cmd.message_id % 2 ^ 16) payload
      → SentAll round w.broadcast_list w u
      → Broadcast round cmd m t u
  to_all-Broadcast round cmd m t w u payload encodes same frame all =
      let ids : w.broadcast_list ≡ t.broadcast_list =
        ap (λ (n : NetThread api). n.broadcast_list) same in
      let reactor : w.reactor ≡ t.reactor = ap (λ (n : NetThread api). n.reactor) same in
      let counter = ap (λ r. r.timer_heap.timer_id) reactor in
      let connections : (j : ℕ) → w.reactor.connections j ≡ t.reactor.connections j =
        λ j. ap (λ r. r.connections j) reactor in
      record {
        alive = all.alive;
        list_kept = ap (λ (n : NetThread api). n.broadcast_list) all.same ∙ ids;
        told_kept =
            ap (λ (n : NetThread api). n.told) all.same ∙ ap (λ (n : NetThread api). n.told) same;
        counted = omega (arith, all.counted, counter, ap length ids);
        others = λ j apart. all.others j (subst (All (λ i. j ≢ i)) (sym ids) apart) ∙ connections j;
        each = λ bytes j e inside c found up.
            let frame_of : contents w.encode_buffer ≡ frame_bytes (cmd.message_id % 2 ^ 16) bytes =
              frame ∙ ap (frame_bytes (cmd.message_id % 2 ^ 16)) (grind (arith, encodes, e)) in
            subst (λ f. Gets round f j w u) frame_of
              (all.each j (subst (λ l. 0 < count j l) (sym ids) inside)) c (connections j ∙ found)
              up;
        failed = λ e. absurd (grind (arith, encodes, e));
      }

  unsent-Broadcast :
      (round : Round) (cmd : NetCommand Message) (m : Message) (t w : NetThread api)
      → encode m (room_of api t) ≡ none
      → IsAlive api w
      → w ≡ record t { encode_buffer = w.encode_buffer }
      → Broadcast round cmd m t w
  unsent-Broadcast round cmd m t w none_fits alive same =
      let reactor : w.reactor ≡ t.reactor = ap (λ (n : NetThread api). n.reactor) same in
      let counter = ap (λ r. r.timer_heap.timer_id) reactor in
      record {
        alive = alive;
        list_kept = ap (λ (n : NetThread api). n.broadcast_list) same;
        told_kept = ap (λ (n : NetThread api). n.told) same;
        counted = omega (arith, counter);
        others = λ j apart. ap (λ r. r.connections j) reactor;
        each = λ bytes j e inside. absurd (grind (arith, none_fits, e));
        failed = λ _. reactor;
      }

  -- A broadcast on a live net thread, with ids left for the timers of errors and sockets that take
  -- no more than they are given, returns, whether or not its message encodes. If it encodes, the
  -- frame is sent once to each connected socket of the set: the bytes of it that `::send` takes go
  -- behind those on their way, and as many bytes from its start as were not taken go behind these;
  -- or the connection fails, and a timer waits that is to report its error. No other connection is
  -- touched, and none at all if the message does not encode. The thread stays live.
  pub on_broadcast_lem :
      (round : Round) (cmd : NetCommand Message) (m : Message) (t : NetThread api)
      → Fits api
      → IsRound round
      → IsAlive api t
      → cmd.body ≡ some m
      → t.reactor.timer_heap.timer_id + length t.broadcast_list < 2 ^ 63
      → Ends (Broadcast round cmd m t) (on_broadcast api round cmd t)
  unfolding on_broadcast
  on_broadcast_lem round cmd m t fits h v has room =
      Ends-bind (encode_command_lem api cmd m t fits v has) λ (ok, w) enc.
        elim (Option-cases (encode m (room_of api t))) [
          | inl none_fits ↦
              rw (enc.failed none_fits)
                (ends (unsent-Broadcast round cmd m t w none_fits enc.alive enc.same))
          | inr (payload, encodes) ↦
              let (went, frame) = enc.result payload encodes in
              let counter = ap (λ (n : NetThread api). n.reactor.timer_heap.timer_id) enc.same in
              let ids = ap (λ (n : NetThread api). length n.broadcast_list) enc.same in
              rw went (
                Ends-map
                  (send_to_all_lem round w.broadcast_list w h enc.alive enc.alive.ascending
                    (omega (arith, room, counter, ids)))
                  λ u all. to_all-Broadcast round cmd m t w u payload encodes enc.same frame all)
        ]
