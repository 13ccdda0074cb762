-- ===== src/Connection/Fragments.antt =====
-- However the network cuts the stream, the same messages are handed over.
use zbluenet.Base.{
  ℕ, ◌+◌, ◌≤◌, ◌<◌, ◌≡◌, refl, sym, ap, subst, ◌∙◌, arith, false, Ends, ends, Ends-bind, Ends-inv,
  done, ◌>>=◌, List, [], ◌∷◌, ◌++◌, All, append-nil, append_assoc, Option, none, some, length, take,
  drop, take-append-drop, take-append, take-append_le, drop-append, drop-append_le,
}
use native.Mathlib.Decide.{dec_lt}
use zbluenet.Buffer.{Buffer}
use zbluenet.Buffer.Invariant.{max_size, IsValid, contents}
use zbluenet.Protocol.{MessageApi, NetId, NetCommand, Drained, command_of}
use zbluenet.Protocol.Frames.{Sent, IsSound, sent_bytes, parse, more, parse-part, parse-sent_bytes}
use zbluenet.Protocol.Receive.{stream, commands_of, Delivered, Yields, on_recv_message_delivers}
use zbluenet.Connection.{Connection}
use zbluenet.Connection.Reading.{Arrival, Read, on_socket_read, drained, after_loop, after_handling}
use zbluenet.Connection.Receiving.{IsData, all_bytes, growth, read_loop-Complete}
use zbluenet.Connection.Session.{handled, recv_message_cb, on_socket_reads}

module _ (api : MessageApi) (max : ℕ) (id : NetId) where
  open api use {Message}

  -- A front part of a stream is whole frames and less than a frame.
  record Cut (sent : List (Sent api max)) (p rest : List ℕ) : Type 0 where
    before : List (Sent api max)
    after : List (Sent api max)
    part : List ℕ
    whole : sent ≡ before ++ after
    front : p ≡ stream api max id before ++ part
    back : part ++ rest ≡ stream api max id after
    waits : parse api max part ≡ more
    before_sound : All (IsSound api max) before
    after_sound : All (IsSound api max) after

  parse-nil : parse api max [] ≡ more
  unfolding parse
  parse-nil = refl

  nil-of-append : (p rest : List ℕ) → p ++ rest ≡ [] → p ≡ []
  nil-of-append [] rest e = refl
  nil-of-append (x ∷ p) rest e = absurd (omega (arith, ap length e))

  cut :
      (sent : List (Sent api max)) (p rest : List ℕ)
      → All (IsSound api max) sent
      → p ++ rest ≡ stream api max id sent
      → Cut sent p rest
  cut [] p rest sound e = record {
    before = [];
    after = [];
    part = p;
    whole = refl;
    front = refl;
    back = e;
    waits = ap (parse api max) (nil-of-append p rest e) ∙ parse-nil;
    before_sound = sound;
    after_sound = sound;
  }
  cut (s ∷ ss) p rest (one, sound) e =
      let f = sent_bytes api max s in
      elim (dec_lt (length p) (length f)) [
        | yes less ↦
            let same : take (length p) f ≡ p =
              sym (take-append_le (length p) f (stream api max id ss) (omega arith))
              ∙ ap (take (length p)) (sym e)
              ∙ take-append (length p) p rest refl in
            record {
              before = [];
              after = s ∷ ss;
              part = p;
              whole = refl;
              front = refl;
              back = e;
              waits =
                  parse-part api max s p (drop (length p) f) one
                    (ap (λ q. q ++ drop (length p) f) (sym same) ∙ take-append-drop (length p) f)
                    less;
              before_sound = tt;
              after_sound = (one, sound);
            }
        | no enough ↦
            let n = length f in
            let first : take n p ≡ f =
              sym (take-append_le n p rest (omega arith))
              ∙ ap (take n) e
              ∙ take-append n f (stream api max id ss) refl in
            let second : drop n p ++ rest ≡ stream api max id ss =
              sym (drop-append_le n p rest (omega arith))
              ∙ ap (drop n) e
              ∙ drop-append n f (stream api max id ss) refl in
            let c = cut ss (drop n p) rest sound second in
            record {
              before = s ∷ c.before;
              after = c.after;
              part = c.part;
              whole = ap (◌∷◌ s) c.whole;
              front =
                  sym (take-append-drop n p)
                  ∙ ap (λ q. q ++ drop n p) first
                  ∙ ap (◌++◌ f) c.front
                  ∙ sym (append_assoc f (stream api max id c.before) c.part);
              back = c.back;
              waits = c.waits;
              before_sound = (one, c.before_sound);
              after_sound = c.after_sound;
            }
      ]

  commands_of-append :
      (xs ys : List (Sent api max))
      → commands_of api max id (xs ++ ys) ≡ commands_of api max id xs ++ commands_of api max id ys
  commands_of-append [] ys = refl
  commands_of-append (x ∷ xs) ys =
      ap (◌∷◌ (command_of api id x.message_id x.body)) (commands_of-append xs ys)

  -- What a call of onSocketRead leaves when nothing closes the socket.
  record Called (b : Buffer) (sent : List (Sent api max)) (part : List ℕ) (room : ℕ)
      (r : Read (List (NetCommand Message))) : Type 0 where
    next : Connection
    goes_on : r.connection ≡ some next
    handed : r.output ≡ some (commands_of api max id sent)
    valid : IsValid next.read_buffer
    kept : contents next.read_buffer ≡ part
    expand_kept : next.read_buffer.expand_size ≡ b.expand_size
    grown : length next.read_buffer.buffer ≤ length b.buffer + room

  handled-Called :
      (c : Connection) (b : Buffer) (sent : List (Sent api max)) (part : List ℕ) (room : ℕ)
      (l : Buffer)
      → l.expand_size ≡ b.expand_size
      → length l.buffer ≤ length b.buffer + room
      → (found : Option (Drained api))
      → Yields api max id (Delivered api max id l sent false part) found
      → Ends (Called b sent part room) (
          handled api max id found >>= λ h.
          done (after_handling (List (NetCommand Message)) drained c h))
  unfolding after_handling
  handled-Called c b sent part room l kept grown none y = absurd y
  handled-Called c b sent part room l kept grown (some d) y = rw y.closes (
      ends (record {
        next = record c { read_buffer = d.buffer };
        goes_on = refl;
        handed = ap some y.delivered;
        valid = y.valid;
        kept = y.kept;
        expand_kept = y.expand_kept ∙ kept;
        grown = omega (arith, ap length y.stored, grown);
      }))

  on_socket_read-Called :
      (c : Connection) (a : Arrival) (later : List Arrival) (sent : List (Sent api max))
      (part : List ℕ)
      → IsValid c.read_buffer
      → All IsData (a ∷ later)
      → length c.read_buffer.buffer + growth c.read_buffer.expand_size (a ∷ later) ≤ max_size
      → All (IsSound api max) sent
      → contents c.read_buffer ++ all_bytes (a ∷ later) ≡ stream api max id sent ++ part
      → parse api max part ≡ more
      → Ends
          (Called c.read_buffer sent part (growth c.read_buffer.expand_size (a ∷ later)))
          (on_socket_read (List (NetCommand Message)) (recv_message_cb api max id) 0 (a ∷ later) c)
  unfolding on_socket_read after_loop recv_message_cb
  on_socket_read-Called c a later sent part v d room sound e waits =
      Ends-bind (read_loop-Complete (a ∷ later) false c.read_buffer v d room) λ l q.
        let (found, ret, y) = Ends-inv (
          on_recv_message_delivers api max id sent l.read_buffer part false q.valid sound
            (q.appended ∙ e) waits) in
        rw (q.ends_drained, q.told, ret)
          (handled-Called c c.read_buffer sent part (growth c.read_buffer.expand_size (a ∷ later))
            l.read_buffer q.kept q.grown found y)

  abbrev pub all_calls : List (List Arrival) → List ℕ
  all_calls [] = []
  all_calls (arrivals ∷ calls) = all_bytes arrivals ++ all_calls calls

  abbrev pub all_growth : ℕ → List (List Arrival) → ℕ
  all_growth expand_size [] = 0
  all_growth expand_size (arrivals ∷ calls) =
      growth expand_size arrivals + all_growth expand_size calls

  -- For a connection without a read limit whose storage may grow and whose read buffer waits for
  -- more, calls of onSocketRead, in each round of which bytes arrive, hand over exactly the
  -- messages that the bytes are acceptable frames of, in order, wherever the stream is cut.
  pub on_socket_reads_deliver :
      (calls : List (List Arrival)) (c : Connection) (sent : List (Sent api max))
      → IsValid c.read_buffer
      → All (All IsData) calls
      → All (λ arrivals. 0 < length arrivals) calls
      → length c.read_buffer.buffer + all_growth c.read_buffer.expand_size calls ≤ max_size
      → All (IsSound api max) sent
      → contents c.read_buffer ++ all_calls calls ≡ stream api max id sent
      → parse api max (contents c.read_buffer) ≡ more
      → Ends
          (λ commands. commands ≡ commands_of api max id sent)
          (on_socket_reads api max id calls c)
  unfolding on_socket_reads
  on_socket_reads_deliver [] c [] v d n room sound e waits = ends refl
  on_socket_reads_deliver [] c (s ∷ ss) v d n room sound e waits =
      let same = sym (append-nil (contents c.read_buffer)) ∙ e in
      let parsed =
        ap (parse api max) same ∙ parse-sent_bytes api max s (stream api max id ss) sound.0 in
      absurd (grind (arith, waits, parsed))
  on_socket_reads_deliver ([] ∷ calls) c sent v d n room sound e waits = absurd (omega (arith, n.0))
  on_socket_reads_deliver ((a ∷ later) ∷ calls) c sent v d n room sound e waits =
      let arrivals = a ∷ later in
      let k =
        cut sent (contents c.read_buffer ++ all_bytes arrivals) (all_calls calls) sound
          (append_assoc (contents c.read_buffer) (all_bytes arrivals) (all_calls calls) ∙ e) in
      Ends-bind
        (on_socket_read-Called c a later k.before k.part v d.0 (omega arith) k.before_sound k.front
          k.waits)
        λ r x.
          let room' =
            subst (λ q. length x.next.read_buffer.buffer + all_growth q calls ≤ max_size)
              (sym x.expand_kept) (omega (arith, x.grown)) in
          let rest = ap (λ q. q ++ all_calls calls) x.kept ∙ k.back in
          let later_calls =
            on_socket_reads_deliver calls x.next k.after x.valid d.1 n.1 room' k.after_sound rest
              (ap (parse api max) x.kept ∙ k.waits) in
          rw (x.goes_on, x.handed)
            (Ends-bind later_calls λ cs same. ends (
              ap (◌++◌ (commands_of api max id k.before)) same
              ∙ sym (commands_of-append k.before k.after)
              ∙ ap (commands_of api max id) (sym k.whole)))
