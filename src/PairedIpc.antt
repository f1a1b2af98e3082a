-- ===== src/PairedIpc.antt =====
-- SyncPairedIpcTransports.cpp: the transport between two objects of one process.
pub mod Order
use rap_cpp.Base.{ℕ, Bool, List, [], ◌∷◌, ◌++◌, if◌then◌else◌}
use rap_cpp.Result.{Result, ok, throw, transport_timeout}
use rap_cpp.Serdes.Size.{to_unsigned}
use rap_cpp.Serdes.Buffer.{Buffer}
use rap_cpp.Calls.{Call}

-- `std::queue<Buffer>`; the lock makes each method one step.
abbrev pub IpcTransportQueue : Type 0
IpcTransportQueue = List Buffer

unfoldable pub push : Buffer → Call IpcTransportQueue (Unit {0})
push buffer queue = (queue ++ (buffer ∷ []), ok tt)

-- `pop(timeout)` from the end of its wait on: a buffer is there, or the time is over.
unfoldable pub pop : Call IpcTransportQueue Buffer
pop [] = ([], throw transport_timeout)
pop (buffer ∷ queue) = (queue, ok buffer)

-- `pop(timeout, stoken)`, by whether a stop is requested when its wait ends.
unfoldable pub pop_or_stop : Bool → Call IpcTransportQueue Buffer
unfolding pop
pop_or_stop stop_requested queue = if stop_requested then (queue, ok []) else pop queue

-- A `PairedIpcTransport` holds two queues, of which its peer holds the same in the other order.
-- The timeout is in microseconds.
pub record PairedIpcTransport : Type 0 where
  pub tx_queue : IpcTransportQueue
  pub rx_queue : IpcTransportQueue
  pub max_message_size : ℕ
  pub timeout : ℕ

abbrev with_tx :
    {A : Type 0} → PairedIpcTransport → IpcTransportQueue × Result A → PairedIpcTransport × Result A
with_tx t (q, r) = (record t { tx_queue = q }, r)

abbrev with_rx :
    {A : Type 0} → PairedIpcTransport → IpcTransportQueue × Result A → PairedIpcTransport × Result A
with_rx t (q, r) = (record t { rx_queue = q }, r)

unfoldable pub ipc_send : Buffer → Call PairedIpcTransport (Unit {0})
unfolding push
ipc_send buffer t = with_tx t (push buffer t.tx_queue)

unfoldable pub ipc_recv : Call PairedIpcTransport Buffer
unfolding pop
ipc_recv t = with_rx t (pop t.rx_queue)

-- `recv(stop_token)`
unfoldable pub ipc_recv_or_stop : Bool → Call PairedIpcTransport Buffer
unfolding pop_or_stop
ipc_recv_or_stop stop_requested t = with_rx t (pop_or_stop stop_requested t.rx_queue)

unfoldable pub ipc_set_timeout : ℕ → PairedIpcTransport → PairedIpcTransport
ipc_set_timeout new_timeout t = record t { timeout = new_timeout }

-- The size is kept in a `size_t` and returned as a `uint16_t`.
unfoldable pub get_max_message_size : PairedIpcTransport → ℕ
get_max_message_size t = to_unsigned 2 t.max_message_size

-- The two ends that `makeSyncPairedIpcTransport` returns, at any time at which their timeouts are
-- the same: what one sends the other receives.
abbrev pub peer : PairedIpcTransport → PairedIpcTransport
peer t = record {
  tx_queue = t.rx_queue;
  rx_queue = t.tx_queue;
  max_message_size = t.max_message_size;
  timeout = t.timeout;
}

-- `std::chrono::years(1)`
abbrev pub one_year : ℕ
one_year = 31_556_952_000_000

unfoldable pub make_sync_paired_ipc_transport : ℕ → PairedIpcTransport × PairedIpcTransport
make_sync_paired_ipc_transport size =
    let q1 = [] in
    let q2 = [] in
    (
      record { tx_queue = q1; rx_queue = q2; max_message_size = size; timeout = one_year },
      record { tx_queue = q2; rx_queue = q1; max_message_size = size; timeout = one_year },
    )
