-- ===== src/Epoll/Reactor/Stuck.antt =====
-- The poller is never told to watch a socket for EPOLLOUT, since attachSocket sets no callback for
-- writing and sendMessage, which sets one later, does not tell the poller. So bytes that wait in a
-- write buffer never go to the socket.
use zbluenet.Base.{
  ℕ, ◌-◌, ◌<◌, ◌≡◌, ◌⊎◌, refl, sym, ap, ◌∙◌, subst, arith, inl, inr, Bool, true, false, List, ◌++◌,
  append-nil, none, some, length, length-append, take, ◌==◌, Bool-cases, Option-cases, Outcome,
  done, Ends, ends,
}
use zbluenet.Buffer.{Buffer, readable_bytes}
use zbluenet.Buffer.Invariant.{contents, length-contents}
use zbluenet.Connection.{Connection, set_error, SendResult}
use zbluenet.Connection.Reading.{Arrival, Handled, Read, on_socket_read}
use zbluenet.Reactor
use zbluenet.Reactor.{Reactor, send_message_to, is_connected_socket}
use zbluenet.Reactor.Delivery.{OnWay, Delivered, send_message_to_lem, status-cases}
use zbluenet.Reactor.Running.{IsRunning}
use zbluenet.Connection.Sending.{outgoing, accepted, accepted-waiting}
use zbluenet.Reactor.Sockets.{IsAgreed, is_some}
use zbluenet.Epoll.{add, attach_io_service, detach_io_service}
use zbluenet.Epoll.Reactor.{
  EpollReactor, attach_socket, close_socket_in, store, on_socket_error, after_socket_read, on_read,
  Step, attached, closed, sent, readable, writable, failing, Reach,
}
use zbluenet.Epoll.Reactor.Deaf.{reach-IsDeaf}
use zbluenet.Epoll.Reactor.Reads.{bind-inv, done-inj, SameOut, read-SameOut}

-- The connection is closed, or it has sent no more and bytes still wait.
abbrev pub Waits : ℕ → Connection → Reactor → Type 0
Waits id c r =
    (r.connections id ≡ none)
    ⊎ ((d : Connection) × (r.connections id ≡ some d)
        × (d.wire ≡ c.wire)
        × (0 < length (contents d.write_buffer)))

close-Waits :
    (accepted : Bool) (id j : ℕ) (c : Connection) (r : EpollReactor)
    → Waits j c r.reactor
    → Waits j c (close_socket_in accepted id r).reactor
unfolding close_socket_in Reactor.close
close-Waits accepted id j c r w = elim (Bool-cases (r.reactor.sockets id)) [
  | inl e ↦
      rw (e, close_socket_in)
        (elim (Bool-cases (id == j)) [
          | inl here ↦ inl (ground arith)
          | inr there ↦ elim w [
            | inl gone ↦ inl (ground (arith, gone))
            | inr (d, found, wire, waits) ↦ inr (d, ground (arith, found), wire, waits)
          ]
        ])
  | inr e ↦ rw (e, close_socket_in) w
]

store-Waits :
    (id j : ℕ) (c d : Connection) (r : EpollReactor)
    → (id ≡ j → (d.wire ≡ c.wire) × (0 < length (contents d.write_buffer)))
    → Waits j c r.reactor
    → Waits j c (store id d r).reactor
unfolding store
store-Waits id j c d r same w = elim (Bool-cases (id == j)) [
  | inl here ↦ let (wire, waits) = same (ground arith) in inr (d, ground (arith, here), wire, waits)
  | inr there ↦ elim w [
    | inl gone ↦ inl (ground (arith, gone))
    | inr (d, found, wire, waits) ↦ inr (d, ground (arith, found), wire, waits)
  ]
]

attach-Waits :
    (accepted : Bool) (id j : ℕ) (c : Connection) (r : EpollReactor)
    → IsAgreed r.reactor
    → r.reactor.connections j ≡ some c
    → 0 < length (contents c.write_buffer)
    → Waits j c (attach_socket accepted id r).1.reactor
unfolding attach_socket attach_io_service add detach_io_service Reactor.attach_socket
attach-Waits true id j c r v found waits = elim (Bool-cases (r.reactor.sockets id)) [
  | inl e ↦ rw (e, attach_socket) (inr (c, found, refl, waits))
  | inr e ↦
      rw (e, attach_socket) (inr (c, ground (arith, v j, e, found, ap is_some found), refl, waits))
]
attach-Waits false id j c r v found waits = elim (Bool-cases (r.reactor.sockets id)) [
  | inl e ↦ rw (e, attach_socket) (inr (c, found, refl, waits))
  | inr e ↦ rw (e, attach_socket) (inr (c, found, refl, waits))
]

Ends-at {ℓ κ} : {A : Type ℓ} {P : A → Type κ} {o : Outcome A} {a : A} → Ends P o → o ≡ done a → P a
Ends-at {P = P} {a = a} (ends p) e = subst P (done-inj _ a e) p

-- What a message adds behind bytes that wait.
added-waits :
    (ok : Bool) (message : List ℕ) (c d : Connection)
    → 0 < length (contents c.write_buffer)
    → OnWay ok message 0 c d
    → (d.wire ≡ c.wire) × (0 < length (contents d.write_buffer))
added-waits true message c d waits (out, _, wired) =
    let wire : d.wire ≡ c.wire = wired ∙ append-nil c.wire in
    let sizes = ap length out in
    (
      wire,
      omega (
        arith,
        sizes,
        ap length wire,
        length-append d.wire (contents d.write_buffer),
        length-append c.wire (contents c.write_buffer),
        length-append (outgoing c) (take 0 message ++ take (length message - 0) message),
      ),
    )
added-waits false message c d waits (out, _, wired) =
    let wire : d.wire ≡ c.wire = wired ∙ append-nil c.wire in
    let sizes = ap length out in
    (
      wire,
      omega (
        arith,
        sizes,
        ap length wire,
        length-append d.wire (contents d.write_buffer),
        length-append c.wire (contents c.write_buffer),
        length-append (outgoing c) (take 0 message),
      ),
    )

sent-Waits :
    (j id : ℕ) (message : List ℕ) (answer : SendResult) (c : Connection) (r : Reactor)
    (out : Bool × Reactor)
    → IsRunning r
    → r.connections j ≡ some c
    → 0 < length (contents c.write_buffer)
    → Delivered id message answer r out
    → Waits j c out.1
unfolding is_connected_socket
sent-Waits j id message answer c r out v found waits q = elim (Bool-cases (j == id)) [
  | inl here ↦
      let at_id : r.connections id ≡ some c = ap r.connections {y = j} (ground arith) ∙ found in
      let back : Waits id c out.1 → Waits j c out.1 =
        λ w. subst (λ k. Waits k c out.1) (ground arith) w in
      let p = (v.placed j c found).sound.buffer in
      let readable : readable_bytes c.write_buffer == 0 ≡ false =
        ground (arith, length-contents c.write_buffer p, p.ordered, p.inside, p.small) in
      elim (status-cases c.status) [
        | inl alive ↦
            let (d, moved, way) = q.live c at_id alive in
            let (wire, more) =
              added-waits out.0 message c d waits
                (subst (λ k. OnWay out.0 message k c d) (accepted-waiting answer c readable) way) in
            back (inr (d, moved, wire, more))
        | inr down ↦
            let (_, same) = q.dead (rw (at_id, is_connected_socket) down) in
            back (inr (c, same ∙ at_id, refl, waits))
      ]
  | inr there ↦ inr (c, q.others j (ground arith) ∙ found, refl, waits)
]

error-Waits :
    (accepted : Bool) (id socket_error j : ℕ) (c : Connection) (r : EpollReactor)
    → r.reactor.connections j ≡ some c
    → 0 < length (contents c.write_buffer)
    → Waits j c (on_socket_error accepted id socket_error r).reactor
unfolding on_socket_error set_error
error-Waits accepted id socket_error j c r found waits =
    elim (Option-cases (r.reactor.connections id)) [
      | inl e ↦ rw (e, on_socket_error) (inr (c, found, refl, waits))
      | inr (b, e) ↦
          let one : id ≡ j → b ≡ c = λ here. grind (arith, here, e, found) in
          rw (e, on_socket_error)
            (close-Waits accepted id j c (store id (set_error socket_error b) r) (
              store-Waits id j c (set_error socket_error b) r
                (λ here. (
                  ap (λ (x : Connection). x.wire) (one here),
                  subst (λ (x : Connection). 0 < length (contents x.write_buffer)) (sym (one here))
                      waits,
                ))
                (inr (c, found, refl, waits))))
    ]

module _ (Output : Type 0) (cb : Buffer → Outcome (Handled Output)) (read_max_size : ℕ) where
  after_read-Waits :
      (accepted : Bool) (id j : ℕ) (c : Connection) (r : EpollReactor) (result : Read Output)
      → r.reactor.connections j ≡ some c
      → 0 < length (contents c.write_buffer)
      → ((d : Connection)
          → result.connection ≡ some d
          → id ≡ j
          → (d.wire ≡ c.wire) × (d.write_buffer ≡ c.write_buffer))
      → Waits j c (after_socket_read Output cb read_max_size accepted id r result).reactor
  unfolding after_socket_read
  after_read-Waits accepted id j c r result found waits same =
      let w : Waits j c r.reactor = inr (c, found, refl, waits) in
      elim (Option-cases result.connection) [
        | inl e ↦ rw (e, after_socket_read) (close-Waits accepted id j c r w)
        | inr (d, e) ↦
            let stored : Waits j c (store id d r).reactor =
              store-Waits id j c d r
                (λ here.
                  let (wire, buffer) = same d e here in
                  (wire, subst (λ b. 0 < length (contents b)) (sym buffer) waits))
                w in
            elim (Bool-cases result.success) [
              | inl ok ↦ rw (e, after_socket_read, ok) stored
              | inr failed ↦
                  rw (e, after_socket_read, failed)
                    (close-Waits accepted id j c (store id d r) stored)
            ]
      ]

  on_read-Waits :
      (accepted : Bool) (arrivals : List Arrival) (id j : ℕ) (c : Connection) (r t : EpollReactor)
      → on_read Output cb read_max_size accepted arrivals id r ≡ done t
      → r.reactor.connections j ≡ some c
      → 0 < length (contents c.write_buffer)
      → Waits j c t.reactor
  unfolding on_read
  on_read-Waits accepted arrivals id j c r t ran found waits =
      elim (Option-cases (r.reactor.connections id)) [
        | inl e ↦
            let same : done r ≡ done t = rw (e, on_read) at ran in
            subst (λ (x : EpollReactor). Waits j c x.reactor) (done-inj r t same)
              (inr (c, found, refl, waits))
        | inr (b, e) ↦
            let (result, read, same) =
              bind-inv (on_socket_read Output cb read_max_size arrivals b)
                (λ result. done (after_socket_read Output cb read_max_size accepted id r result)) t
                (rw (e, on_read) at ran) in
            let one : id ≡ j → b ≡ c = λ here. grind (arith, here, e, found) in
            subst (λ (x : EpollReactor). Waits j c x.reactor) (done-inj _ t same)
              (after_read-Waits accepted id j c r result found waits λ d h here.
                subst (λ x. SameOut x d) (one here)
                  (read-SameOut Output cb read_max_size arrivals b d result read h))
      ]

  -- Once bytes wait in the write buffer of a connection of a running reactor, no step sends any of
  -- them, or any others: whatever happens, the connection is closed, or the socket has been given
  -- no more bytes and some still wait.
  pub step-Waits :
      (id : ℕ) (c : Connection) (r t : EpollReactor)
      → Reach Output cb read_max_size r
      → IsRunning r.reactor
      → r.reactor.connections id ≡ some c
      → 0 < length (contents c.write_buffer)
      → Step Output cb read_max_size r t
      → Waits id c t.reactor
  step-Waits j c r t reached v found waits (attached accepted id) =
      attach-Waits accepted id j c r v.agreed found waits
  step-Waits j c r t reached v found waits (closed accepted id) =
      close-Waits accepted id j c r (inr (c, found, refl, waits))
  step-Waits j c r t reached v found waits (sent now id message answer n room honest short e) =
      sent-Waits j id message answer c r.reactor _ v found waits
        (Ends-at (send_message_to_lem now id message answer r.reactor v n room honest short) e)
  step-Waits j c r t reached v found waits (readable accepted arrivals id e) =
      on_read-Waits accepted arrivals id j c r t e found waits
  step-Waits j c r t reached v found waits (writable accepted answer id i watched out e) =
      absurd (grind (arith, reach-IsDeaf Output cb read_max_size reached id i watched, out))
  step-Waits j c r t reached v found waits (failing accepted id socket_error) =
      error-Waits accepted id socket_error j c r found waits
