-- ===== src/Epoll.antt =====
-- Epoller (zbluenet/zbluenet/src/zbluenet/net/epoller.{h,cc}) and the attachment of an IODevice
-- (net/io_device.cc) to its service. A device is named by a number, which stands for its address.
-- The kernel's set holds for each device what it was last told to watch. What `epoll_ctl` and
-- `epoll_wait` answer is an argument.
pub mod Rounds
pub mod Reactor
pub mod Accepting
mod Tests
use zbluenet.Base.{
  ℕ, suc, ◌+◌, ◌*◌, Bool, true, false, not, ◌&&◌, List, [], ◌∷◌, Option, none, some, Outcome, done,
  fault, ◌>>=◌, length, leb, ◌==◌, if◌then◌else◌,
}
use zbluenet.Timers.{update}

-- Which callbacks of a device are set.
pub record Callbacks : Type 0 where
  pub read_cb : Bool
  pub write_cb : Bool
  pub error_cb : Bool

-- `EPOLLIN | EPOLLPRI`, and `EPOLLOUT`.
pub record Interest : Type 0 where
  pub input : Bool
  pub output : Bool

pub record Epoller : Type 0 where
  pub interests : ℕ → Option Interest
  pub removed_io_devices : ℕ → Bool
  -- The size of `events_`.
  pub room : ℕ

abbrev pub interest_of : Callbacks → Interest
interest_of c = record { input = c.read_cb; output = c.write_cb }

unfoldable pub add : Bool → Callbacks → ℕ → Epoller → Bool × Epoller
add accepted callbacks device e =
    if accepted
    then (true, record e { interests = update e.interests device (some (interest_of callbacks)) })
    else (false, e)

unfoldable pub del : Bool → ℕ → Epoller → Bool × Epoller
del accepted device e =
    if accepted
    then (
      true,
      record e {
        interests = update e.interests device none;
        removed_io_devices = update e.removed_io_devices device true;
      },
    )
    else (false, e)

unfoldable pub modify : Bool → Callbacks → ℕ → Epoller → Bool × Epoller
modify accepted callbacks device e =
    if accepted
    then (true, record e { interests = update e.interests device (some (interest_of callbacks)) })
    else (false, e)

unfoldable pub check_io_device_exist : ℕ → Epoller → Bool
check_io_device_exist device e = not (e.removed_io_devices device)

-- IODevice::detachIOService and attachIOService; `attached` tells whether `io_service_` is set.
unfoldable pub detach_io_service : Bool → ℕ → Bool × Epoller → Bool × Epoller
unfolding del
detach_io_service accepted device (attached, e) =
    if attached then (false, (del accepted device e).1) else (false, e)

unfoldable pub attach_io_service :
    Bool → Bool → Callbacks → ℕ → Bool × Epoller → Bool × (Bool × Epoller)
unfolding add detach_io_service
attach_io_service deleted accepted callbacks device (attached, e) =
    let free = (detach_io_service deleted device (attached, e)).1 in
    let added = add accepted callbacks device free in (added.0, (added.0, added.1))

-- What `epoll_wait` reports of a device: EPOLLOUT; EPOLLIN, EPOLLPRI or EPOLLRDHUP; EPOLLERR or
-- EPOLLHUP.
pub record Ready : Type 0 where
  pub device : ℕ
  pub output : Bool
  pub input : Bool
  pub error : Bool

pub data Kind : Type 0 where
  write_kind read_kind error_kind : Kind

pub data Waited : Type 0 where
  wait_failed : ℕ → Waited
  events : List Ready → Waited

abbrev pub eintr : ℕ
eintr = 4

-- doEvent in a program of which `epoller` is a part, and in which `call` is the call of a
-- device's callback.
module _ {S : Type 0} (epoller : S → Epoller) (with_epoller : Epoller → S → S)
    (call : Kind → ℕ → S → Outcome S) where
  -- A branch of the loop's body: false is `continue`.
  unfoldable pub fire : Kind → Bool → ℕ → Bool × S → Outcome (Bool × S)
  unfolding check_io_device_exist
  fire kind wanted device (going, s) =
      if going && wanted
      then (if check_io_device_exist device (epoller s)
          then (call kind device s >>= λ t. done (true, t))
          else done (false, s))
      else done (going, s)

  unfoldable pub handle_event : Ready → S → Outcome S
  unfolding fire
  handle_event event s =
      fire write_kind event.output event.device (true, s)
      >>= fire read_kind event.input event.device
      >>= fire error_kind event.error event.device
      >>= λ (_, t). done t

  unfoldable pub handle_events : List Ready → S → Outcome S
  unfolding handle_event
  handle_events [] s = done s
  handle_events (event ∷ rest) s = handle_event event s >>= handle_events rest

  -- The end of doEvent: the removed devices are forgotten, and the room is doubled if it was full.
  unfoldable pub after_events : ℕ → S → S
  after_events event_count s =
      let e = epoller s in
      let cleared = record e { removed_io_devices = λ _. false } in
      let grown = record cleared { room = if leb e.room event_count then e.room * 2 else e.room } in
      with_epoller grown s

  -- The result is 0 or -1, told by a Bool.
  unfoldable pub do_event : Waited → S → Outcome (Bool × S)
  unfolding handle_events after_events
  do_event (wait_failed errno) s = done (errno == eintr, s)
  do_event (events ready) s =
      handle_events ready s >>= λ t. done (true, after_events (length ready) t)
