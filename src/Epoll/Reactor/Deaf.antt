-- ===== src/Epoll/Reactor/Deaf.antt =====
-- The poller is never told to watch a socket for EPOLLOUT.
use zbluenet.Base.{
  ℕ, ◌≡◌, subst, arith, inl, inr, Bool, true, false, List, some, ◌==◌, Bool-cases, Option-cases,
  Outcome, done,
}
use zbluenet.Buffer.{Buffer}
use zbluenet.Connection.{set_error}
use zbluenet.Connection.Reading.{Arrival, Handled, Read, on_socket_read}
use zbluenet.Connection.Sending.{accepted}
use zbluenet.Epoll.{Interest, Epoller, add, del, attach_io_service, detach_io_service}
use zbluenet.Epoll.Reactor.{
  EpollReactor, attach_socket, close_socket_in, store, on_socket_error, after_socket_read, on_read,
  Step, attached, closed, sent, readable, writable, failing, Reach, start, later,
}
use zbluenet.Epoll.Reactor.Reads.{bind-inv, done-inj}

-- Nothing is watched for EPOLLOUT.
abbrev pub IsDeaf : Epoller → Type 0
IsDeaf e = (id : ℕ) (i : Interest) → e.interests id ≡ some i → i.output ≡ false

del-IsDeaf : (accepted : Bool) (id : ℕ) (e : Epoller) → IsDeaf e → IsDeaf (del accepted id e).1
unfolding del
del-IsDeaf true id e v = λ j i h. elim (Bool-cases (id == j)) [
  | inl here ↦ absurd (grind (arith, here, h))
  | inr there ↦ v j i (grind (arith, there, h))
]
del-IsDeaf false id e v = v

close-IsDeaf :
    (accepted : Bool) (id : ℕ) (r : EpollReactor)
    → IsDeaf r.epoller
    → IsDeaf (close_socket_in accepted id r).epoller
unfolding close_socket_in detach_io_service
close-IsDeaf accepted id r v = elim (Bool-cases (r.reactor.sockets id)) [
  | inl e ↦ rw (e, close_socket_in) (del-IsDeaf accepted id r.epoller v)
  | inr e ↦ rw (e, close_socket_in) v
]

attach-IsDeaf :
    (accepted : Bool) (id : ℕ) (r : EpollReactor)
    → IsDeaf r.epoller
    → IsDeaf (attach_socket accepted id r).1.epoller
unfolding attach_socket attach_io_service add detach_io_service
attach-IsDeaf true id r v = elim (Bool-cases (r.reactor.sockets id)) [
  | inl e ↦ rw (e, attach_socket) v
  | inr e ↦
      rw (e, attach_socket)
        (λ j i h. elim (Bool-cases (id == j)) [
          | inl here ↦ grind (arith, here, h)
          | inr there ↦ v j i (grind (arith, there, h))
        ])
]
attach-IsDeaf false id r v = elim (Bool-cases (r.reactor.sockets id)) [
  | inl e ↦ rw (e, attach_socket) v
  | inr e ↦ rw (e, attach_socket) v
]

error-IsDeaf :
    (accepted : Bool) (id socket_error : ℕ) (r : EpollReactor)
    → IsDeaf r.epoller
    → IsDeaf (on_socket_error accepted id socket_error r).epoller
unfolding on_socket_error store
error-IsDeaf accepted id socket_error r v = elim (Option-cases (r.reactor.connections id)) [
  | inl e ↦ rw (e, on_socket_error) v
  | inr (c, e) ↦
      rw (e, on_socket_error) (close-IsDeaf accepted id (store id (set_error socket_error c) r) v)
]

module _ (Output : Type 0) (cb : Buffer → Outcome (Handled Output)) (read_max_size : ℕ) where
  read-IsDeaf :
      (accepted : Bool) (id : ℕ) (r : EpollReactor) (result : Read Output)
      → IsDeaf r.epoller
      → IsDeaf (after_socket_read Output cb read_max_size accepted id r result).epoller
  unfolding after_socket_read store
  read-IsDeaf accepted id r result v = elim (Option-cases result.connection) [
    | inl e ↦ rw (e, after_socket_read) (close-IsDeaf accepted id r v)
    | inr (c, e) ↦ elim (Bool-cases result.success) [
      | inl ok ↦ rw (e, after_socket_read, ok) v
      | inr failed ↦ rw (e, after_socket_read, failed) (close-IsDeaf accepted id (store id c r) v)
    ]
  ]

  on_read-IsDeaf :
      (accepted : Bool) (arrivals : List Arrival) (id : ℕ) (r t : EpollReactor)
      → on_read Output cb read_max_size accepted arrivals id r ≡ done t
      → IsDeaf r.epoller
      → IsDeaf t.epoller
  unfolding on_read
  on_read-IsDeaf accepted arrivals id r t ran v = elim (Option-cases (r.reactor.connections id)) [
    | inl e ↦
        let same : done r ≡ done t = rw (e, on_read) at ran in
        subst (λ x. IsDeaf x.epoller) (done-inj r t same) v
    | inr (c, e) ↦
        let (result, _, same) =
          bind-inv (on_socket_read Output cb read_max_size arrivals c)
            (λ result. done (after_socket_read Output cb read_max_size accepted id r result)) t
            (rw (e, on_read) at ran) in
        subst (λ (x : EpollReactor). IsDeaf x.epoller) (done-inj _ t same)
          (read-IsDeaf accepted id r result v)
  ]

  step-IsDeaf :
      {r t : EpollReactor} → Step Output cb read_max_size r t → IsDeaf r.epoller → IsDeaf t.epoller
  step-IsDeaf {r = r} (attached accepted id) v = attach-IsDeaf accepted id r v
  step-IsDeaf {r = r} (closed accepted id) v = close-IsDeaf accepted id r v
  step-IsDeaf (sent now id bytes answer n room honest short e) v = v
  step-IsDeaf {r = r} (readable accepted arrivals id e) v =
      on_read-IsDeaf accepted arrivals id r _ e v
  step-IsDeaf (writable accepted answer id i watched out e) v =
      absurd (grind (arith, v id i watched, out))
  step-IsDeaf {r = r} (failing accepted id socket_error) v =
      error-IsDeaf accepted id socket_error r v

  pub reach-IsDeaf : {r : EpollReactor} → Reach Output cb read_max_size r → IsDeaf r.epoller
  reach-IsDeaf (start none_watched) = λ id i h. absurd (grind (arith, none_watched id, h))
  reach-IsDeaf (later r s) = step-IsDeaf s (reach-IsDeaf r)
