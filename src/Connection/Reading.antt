-- ===== src/Connection/Reading.antt =====
-- Reactor::onSocketRead (zbluenet/zbluenet/src/zbluenet/net/reactor.cc). The answers of the socket
-- are a list; when it is used up the socket has nothing more, and the loop stops as on EAGAIN.
use zbluenet.Base.{
  ℕ, max, Bool, true, false, ◌&&◌, Outcome, done, ◌>>=◌, List, [], ◌∷◌, Option, none, some, length,
  ltb, ◌==◌, if◌then◌else◌,
}
use zbluenet.Base.Word.{add_size}
use zbluenet.Base.Int.{ℤ, pos, negsuc}
use zbluenet.Buffer.{Buffer, readable_bytes, reserve_writable_bytes}
use zbluenet.Connection.{Connection, peer_closed, set_error, eagain, copy_in}

-- The answer of `::recv`: bytes, none of them at the end of the stream, or -1 and errno.
pub data RecvResult : Type 0 where
  received : List ℕ → RecvResult
  recv_failed : ℕ → RecvResult

-- The answers of `readableBytes()`, which may be -1, and of `recv` in a round of the loop.
pub record Arrival : Type 0 where
  pub readable : ℤ
  pub answer : RecvResult

-- Why the loop stops.
pub data ReadEnd : Type 0 where
  drained peer_close : ReadEnd
  read_error : ℕ → ReadEnd

pub record Loop : Type 0 where
  pub ended : ReadEnd
  pub data_arrive : Bool
  pub read_buffer : Buffer

abbrev pub bytes_to_read : ℤ → ℕ
bytes_to_read (pos n) = max 1 n
bytes_to_read (negsuc _) = 1

abbrev pub is_zero : ℤ → Bool
is_zero (pos n) = n == 0
is_zero (negsuc _) = false

-- A round from the result of `recv` on; `again` is the rounds to come.
unfoldable pub after_recv : RecvResult → (Buffer → Outcome Loop) → Bool → Buffer → Outcome Loop
unfolding copy_in
after_recv (received []) again data_arrive b =
    done (record { ended = peer_close; data_arrive = data_arrive; read_buffer = b })
after_recv (received (x ∷ bytes)) again data_arrive b =
    copy_in (x ∷ bytes) (length (x ∷ bytes)) b >>= again
after_recv (recv_failed errno) again data_arrive b =
    if errno == eagain
    then done (record { ended = drained; data_arrive = data_arrive; read_buffer = b })
    else done (record { ended = read_error errno; data_arrive = data_arrive; read_buffer = b })

unfoldable pub read_loop : ℕ → List Arrival → Bool → Buffer → Outcome Loop
unfolding after_recv
read_loop max_size [] data_arrive b =
    done (record { ended = drained; data_arrive = data_arrive; read_buffer = b })
read_loop max_size (a ∷ later) data_arrive b =
    let n = bytes_to_read a.readable in
    let rest =
      reserve_writable_bytes b n
      >>= after_recv a.answer (read_loop max_size later true) data_arrive in
    if data_arrive && is_zero a.readable
    then done (record { ended = drained; data_arrive = data_arrive; read_buffer = b })
    else if ltb 0 max_size && ltb max_size (add_size n (readable_bytes b))
    then done (record { ended = peer_close; data_arrive = data_arrive; read_buffer = b })
    else rest

module _ (Output : Type 0) where
  -- What recv_message_cb does: what it hands on, whether it closes the socket, which destroys the
  -- connection, and the buffer that it leaves.
  pub record Handled : Type 0 where
    pub output : Option Output
    pub closed : Bool
    pub buffer : Buffer

  -- What onSocketRead does: its result is 0 or -1, the connection is gone when it was closed, and
  -- then come what the callback handed on, and whether error_cb and peer_close_cb are called.
  pub record Read : Type 0 where
    pub success : Bool
    pub connection : Option Connection
    pub output : Option Output
    pub error : Option ℕ
    pub told_peer_close : Bool

  -- onSocketRead after the callback has handled the data.
  unfoldable pub after_handling : ReadEnd → Connection → Handled → Read
  after_handling peer_close c h =
      if h.closed
      then record {
        success = false;
        connection = none;
        output = h.output;
        error = none;
        told_peer_close = false;
      }
      else record {
        success = false;
        connection = some (record c { read_buffer = h.buffer; status = peer_closed });
        output = h.output;
        error = none;
        told_peer_close = true;
      }
  after_handling _ c h = record {
    success = true;
    connection = if h.closed then none else some (record c { read_buffer = h.buffer });
    output = h.output;
    error = none;
    told_peer_close = false;
  }

  -- onSocketRead after its loop; `cb` is recv_message_cb.
  unfoldable pub after_loop :
      (Buffer → Outcome Handled) → Connection → ReadEnd → Bool → Buffer → Outcome Read
  unfolding after_handling set_error
  after_loop cb c (read_error errno) data_arrive b = done (record {
    success = false;
    connection = some (set_error errno (record c { read_buffer = b }));
    output = none;
    error = some errno;
    told_peer_close = false;
  })
  after_loop cb c ended true b = cb b >>= λ h. done (after_handling ended c h)
  after_loop cb c ended false b =
      done (after_handling ended c (record { output = none; closed = false; buffer = b }))

  unfoldable pub on_socket_read :
      (Buffer → Outcome Handled) → ℕ → List Arrival → Connection → Outcome Read
  unfolding read_loop after_loop
  on_socket_read cb max_size arrivals c = read_loop max_size arrivals false c.read_buffer >>= λ l.
      after_loop cb c l.ended l.data_arrive l.read_buffer
