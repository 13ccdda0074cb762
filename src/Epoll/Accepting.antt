-- ===== src/Epoll/Accepting.antt =====
-- The loop of EPollAcceptor::onListenSocketRead (zbluenet/zbluenet/src/zbluenet/net/
-- epoll_acceptor.cc) and Acceptor::accept (net/acceptor.cc): the sockets that are accepted get ids
-- and are handed to `new_conn_cb_`. What `accept` answers is a list; when it is used up there is
-- no other socket, as on EAGAIN.
use zbluenet.Base.{
  ℕ, suc, ◌+◌, ◌/◌, ◌%◌, ◌^◌, ◌<◌, ◌≡◌, ◌≢◌, ap, ◌∙◌, arith, inl, inr, Bool, true, false, List, [],
  ◌∷◌, All, length, ◌==◌, if◌then◌else◌, Bool-cases, Outcome, done, ◌>>=◌, Ends, ends, Ends-bind,
  Ends-map,
}
use zbluenet.SocketIds.{next_id}
use zbluenet.SocketIds.Laws.{next_id_split}

-- A descriptor, or an errno.
pub data Accept : Type 0 where
  accepted : ℕ → Accept
  accept_failed : ℕ → Accept

abbrev pub eagain : ℕ
eagain = 11

abbrev pub econnaborted : ℕ
econnaborted = 103

-- The result 0 or -1, the ids handed over in order, and the counter of the allocator.
pub record Accepted : Type 0 where
  pub success : Bool
  pub ids : List ℕ
  pub value : ℕ

with_id : ℕ → Accepted → Accepted
with_id id a = record a { ids = id ∷ a.ids }

unfoldable pub on_listen_socket_read : List Accept → ℕ → Outcome Accepted
unfolding with_id next_id
on_listen_socket_read [] value = done (record { success = true; ids = []; value = value })
on_listen_socket_read (accepted fd ∷ rest) value =
    next_id value fd >>= λ (id, next). on_listen_socket_read rest next >>= λ a. done (with_id id a)
on_listen_socket_read (accept_failed errno ∷ rest) value =
    let again = on_listen_socket_read rest value in
    if errno == eagain
    then done (record { success = true; ids = []; value = value })
    else if errno == econnaborted
    then again
    else done (record { success = false; ids = []; value = value })

-- Acceptor::accept, for one socket.
unfoldable pub accept : Accept → ℕ → Outcome Accepted
unfolding next_id
accept (accepted fd) value =
    next_id value fd >>= λ (id, next). done (record { success = true; ids = id ∷ []; value = next })
accept (accept_failed errno) value = done (record { success = false; ids = []; value = value })

-- The descriptors of the sockets that are accepted before the loop ends.
abbrev pub taken : List Accept → List ℕ
taken [] = []
taken (accepted fd ∷ rest) = let later = taken rest in fd ∷ later
taken (accept_failed errno ∷ rest) =
    let later = taken rest in
    if errno == eagain then [] else if errno == econnaborted then later else []

-- An id for each descriptor, in order, none of which is twice there.
abbrev pub AreIdsOf : List ℕ → List ℕ → Type 0
AreIdsOf [] [] = Unit
AreIdsOf (id ∷ ids) (fd ∷ fds) =
    (id % 2 ^ 32 ≡ fd) × All (λ other. id ≢ other) ids × AreIdsOf ids fds
AreIdsOf _ _ = ⊥

-- The counters of the ids to come: the next `n` after `value`.
Later : ℕ → ℕ → ℕ → Type 0
Later value n id = (k : ℕ) × (k < n) × (id / 2 ^ 32 ≡ value + 1 + k)

Later-apart :
    (value n id other : ℕ) → id / 2 ^ 32 ≡ value + 1 → Later (value + 1) n other → id ≢ other
unfolding Later
Later-apart value n id other here (k, less, there) same =
    omega (arith, ap (λ (x : ℕ). x / 2 ^ 32) same)

All-apart :
    (value n id : ℕ) (ids : List ℕ)
    → id / 2 ^ 32 ≡ value + 1
    → All (Later (value + 1) n) ids
    → All (λ other. id ≢ other) ids
All-apart value n id [] here all = tt
All-apart value n id (x ∷ ids) here (one, all) =
    (Later-apart value n id x here one, All-apart value n id ids here all)

All-Later :
    (value n : ℕ) (ids : List ℕ) → All (Later (value + 1) n) ids → All (Later value (suc n)) ids
unfolding Later
All-Later value n [] all = tt
All-Later value n (x ∷ ids) ((k, less, there), all) =
    ((suc k, omega arith, omega arith), All-Later value n ids all)

-- The descriptors `fds` got their ids from the counter at `value`.
abbrev pub Named : ℕ → List ℕ → Accepted → Type 0
Named value fds a = AreIdsOf a.ids fds × (a.value ≡ value + length fds)

Given : ℕ → List ℕ → Accepted → Type 0
Given value fds a = Named value fds a × All (Later value (length fds)) a.ids

ids_of :
    (answers : List Accept) (value : ℕ)
    → All (λ fd. fd < 2 ^ 32) (taken answers)
    → value + length (taken answers) < 2 ^ 31
    → Ends (Given value (taken answers)) (on_listen_socket_read answers value)
unfolding on_listen_socket_read with_id Later Given
ids_of [] value fds few = ends ((tt, omega arith), tt)
ids_of (accepted fd ∷ rest) value (fits, fds) few =
    let n = length (taken rest) in
    let (id, ran, _, high, low) = next_id_split value fd (omega arith) fits in
    rw ran (
      Ends-bind (ids_of rest (value + 1) fds (omega arith)) λ a ((ids, counter), later). ends (
        ((low, All-apart value n id a.ids high later, ids), omega (arith, counter)),
        ((0, omega arith, high ∙ omega arith), All-Later value n a.ids later),
      ))
ids_of (accept_failed errno ∷ rest) value fds few = elim (Bool-cases (errno == eagain)) [
  | inl e ↦ rw e (ends ((tt, omega arith), tt))
  | inr e ↦ elim (Bool-cases (errno == econnaborted)) [
    | inl f ↦ rw (e, f) (ids_of rest value (rw (e, f) at fds) (rw (e, f) at few))
    | inr f ↦ rw (e, f) (ends ((tt, omega arith), tt))
  ]
]

-- While the 31-bit counter has values left for the sockets that are accepted one after the other,
-- with descriptors below 2 ^ 32, the loop ends. The sockets get ids that hold their descriptors and
-- are different from one another, and the counter counts them. Those accepted up to the first
-- error other than an aborted connection are handed over, in order, and no others.
pub on_listen_socket_read_lem :
    (answers : List Accept) (value : ℕ)
    → All (λ fd. fd < 2 ^ 32) (taken answers)
    → value + length (taken answers) < 2 ^ 31
    → Ends (Named value (taken answers)) (on_listen_socket_read answers value)
unfolding Given
on_listen_socket_read_lem answers value fds few = Ends-map (ids_of answers value fds few) λ a q. q.0
