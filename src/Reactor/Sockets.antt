-- ===== src/Reactor/Sockets.antt =====
-- The maps of sockets and connections.
use zbluenet.Base.{
  ℕ, ◌≡◌, ◌≢◌, refl, arith, Bool, true, false, not, Option, none, some, Bool-cases, inl, inr,
}
use zbluenet.Reactor.{Reactor, close, check_exists, attach_socket, is_connected_socket}

abbrev pub is_some {ℓ} : {A : Type ℓ} → Option A → Bool
is_some none = false
is_some (some _) = true

-- Every socket has a connection, and every connection a socket.
abbrev pub IsAgreed : Reactor → Type 0
IsAgreed r = (id : ℕ) → r.sockets id ≡ is_some (r.connections id)

-- After closeSocket the socket does not exist and is not connected, the other connections are as
-- they were, and the ids with a socket are those with a connection.
pub close_lem :
    (id : ℕ) (r : Reactor)
    → IsAgreed r
    → IsAgreed (close id r)
      × (check_exists id (close id r) ≡ false)
      × (is_connected_socket id (close id r) ≡ false)
      × ((j : ℕ) → j ≢ id → (close id r).connections j ≡ r.connections j)
unfolding close check_exists is_connected_socket
close_lem id r v = (λ j. ground (arith, v j), ground arith, ground arith, λ j n. ground arith)

-- attachSocket refuses a socket that is attached, and else gives it a connection; it leaves the
-- other connections, and the ids with a socket are those with a connection.
pub attach_socket_lem :
    (id : ℕ) (r : Reactor)
    → IsAgreed r
    → IsAgreed (attach_socket id r).1
      × ((attach_socket id r).0 ≡ not (check_exists id r))
      × (check_exists id (attach_socket id r).1 ≡ true)
      × ((j : ℕ) → j ≢ id → (attach_socket id r).1.connections j ≡ r.connections j)
unfolding attach_socket check_exists
attach_socket_lem id r v = elim (Bool-cases (r.sockets id)) [
  | inl e ↦ rw e (v, refl, e, λ j n. refl)
  | inr e ↦ rw e (λ j. ground (arith, v j), refl, ground arith, λ j n. ground arith)
]
