-- ===== src/Connection.antt =====
-- TcpConnection (zbluenet/zbluenet/src/zbluenet/net/tcp_connection.{h,cc}) and what Reactor
-- (zbluenet/zbluenet/src/zbluenet/net/reactor.cc) does with one: sendMessage, onSocketWrite and
-- onSocketRead. The socket belongs to the operating system: what its calls return is given, and
-- `wire` are the bytes that it has taken. The errno values are those of Linux. What is left to
-- the reactor's callbacks is told in the result.
pub mod Sending
pub mod Flushing
pub mod Reading
pub mod Receiving
pub mod Session
pub mod Fragments
mod Tests
use zbluenet.Base.{
  ℕ, zero, suc, ◌+◌, ◌-◌, ◌^◌, max, Bool, true, false, ◌&&◌, not, Outcome, done, fault, ◌>>=◌, List,
  [], ◌∷◌, ◌++◌, Option, none, some, length, take, leb, ltb, ◌==◌, if◌then◌else◌,
}
use zbluenet.Base.Word.{add_size, sub_size}
use zbluenet.Base.Int.{ℤ, pos, negsuc}
use zbluenet.Buffer.{Buffer, store, load, new, read, write, reserve_writable_bytes, readable_bytes}

pub data Status : Type 0 where
  no_status connecting connected peer_closed pending_error : Status

abbrev pub is_connected : Status → Bool
is_connected connected = true
is_connected _ = false

-- The callbacks for a message that is sent: that of sendMessageThenClose, or another.
pub data SendComplete : Type 0 where
  close_socket : SendComplete
  other_callback : ℕ → SendComplete

-- The connection with its socket: the bytes sent, and whether a write callback is set.
pub record Connection : Type 0 where
  pub wire : List ℕ
  pub write_callback : Bool
  pub status : Status
  pub error_code : ℕ
  pub read_buffer : Buffer
  pub write_buffer : Buffer
  pub send_complete_cb : Option SendComplete

abbrev pub eagain : ℕ
eagain = 11

abbrev pub enobufs : ℕ
enobufs = 105

-- The constructor, and `setStatus(CONNECTED)` of attachSocket.
unfoldable pub connect : ℕ → ℕ → ℕ → ℕ → Connection
connect read_init read_expand write_init write_expand = record {
  wire = [];
  write_callback = false;
  status = connected;
  error_code = 0;
  read_buffer = new read_init read_expand;
  write_buffer = new write_init write_expand;
  send_complete_cb = none;
}

unfoldable pub set_error : ℕ → Connection → Connection
set_error error_code c = record c { status = pending_error; error_code = error_code }

-- The answer of `::send`: how many bytes it took, or -1 and errno.
pub data SendResult : Type 0 where
  took : ℕ → SendResult
  send_failed : ℕ → SendResult

-- What sendMessage does: its result, the connection, whether the timer is started that reports
-- the error, and the completion callback that it calls.
pub record Sent : Type 0 where
  pub result : Bool
  pub connection : Connection
  pub error_timer : Bool
  pub completed : Option SendComplete

abbrev pub failed : ℕ → Connection → Sent
failed errno c = record {
  result = false;
  connection = set_error errno c;
  error_timer = true;
  completed = none;
}

-- `::memcpy` to `writeBegin()`, and `write`.
unfoldable pub copy_in : List ℕ → ℕ → Buffer → Outcome Buffer
copy_in bytes n b = do
  stored ← store b.buffer b.write_index bytes
  done (write (record b { buffer = stored }) n)

-- The last statements of sendMessage's branch that queues: `remain_size` bytes are copied from the
-- start of the message.
unfoldable pub append_message : List ℕ → ℕ → Option SendComplete → Connection → Outcome Sent
unfolding copy_in
append_message message remain_size send_complete_cb c = do
  reserved ← reserve_writable_bytes c.write_buffer remain_size
  filled ← copy_in (take remain_size message) remain_size reserved
  let sent = record c {
    write_buffer = filled;
    send_complete_cb = send_complete_cb;
    write_callback = true;
  }
  done (record { result = true; connection = sent; error_timer = false; completed = none })

-- sendMessage from the check of `remain_size` on.
unfoldable pub queue_message : ℕ → List ℕ → ℕ → Option SendComplete → Connection → Outcome Sent
unfolding append_message set_error
queue_message max_size message remain_size send_complete_cb c =
    if ltb 0 remain_size
    then (if ltb 0 max_size && ltb max_size (add_size remain_size (readable_bytes c.write_buffer))
        then done (failed enobufs c)
        else append_message message remain_size send_complete_cb c)
    else done (record {
      result = true;
      connection = c;
      error_timer = false;
      completed = send_complete_cb;
    })

-- sendMessage after `socket->send(buffer, size)`.
unfoldable pub after_send :
    ℕ → List ℕ → Option SendComplete → SendResult → Connection → Outcome Sent
unfolding queue_message set_error
after_send max_size message send_complete_cb (took k) c =
    queue_message max_size message (sub_size (length message) k) send_complete_cb
      (record c { wire = c.wire ++ take k message })
after_send max_size message send_complete_cb (send_failed errno) c =
    if errno == eagain
    then queue_message max_size message (length message) send_complete_cb c
    else done (failed errno c)

unfoldable pub send_message :
    ℕ → List ℕ → Option SendComplete → SendResult → Connection → Outcome Sent
unfolding after_send
send_message max_size message send_complete_cb answer c =
    if not (is_connected c.status)
    then done (record { result = false; connection = c; error_timer = false; completed = none })
    else if readable_bytes c.write_buffer == 0
    then after_send max_size message send_complete_cb answer c
    else queue_message max_size message (length message) send_complete_cb c

-- What onSocketWrite does: the connection, the errno that it reports, and the completion callback
-- that it calls.
pub record Flushed : Type 0 where
  pub connection : Connection
  pub error : Option ℕ
  pub completed : Option SendComplete

-- onSocketWrite after `write_buffer.read(write_size)`.
unfoldable pub after_flush : Connection → Flushed
after_flush c =
    if readable_bytes c.write_buffer == 0
    then record {
      connection = record c { write_callback = false; send_complete_cb = none };
      error = none;
      completed = c.send_complete_cb;
    }
    else record { connection = c; error = none; completed = none }

unfoldable pub on_socket_write : SendResult → Connection → Outcome Flushed
unfolding after_flush set_error
on_socket_write (took k) c = do
  pending ← load c.write_buffer.buffer c.write_buffer.read_index (readable_bytes c.write_buffer)
  done (
      after_flush
        (record c { wire = c.wire ++ take k pending; write_buffer = read c.write_buffer k }))
on_socket_write (send_failed errno) c =
    if errno == eagain
    then done (record { connection = c; error = none; completed = none })
    else done (record { connection = set_error errno c; error = some errno; completed = none })
