-- ===== src/PairedIpc/Order.antt =====
-- SyncPairedIpcTransports.cpp: a sequence of sends and then of receives.
use rap_cpp.Base.{
  true, false, ℕ, zero, suc, ◌≡◌, refl, sym, ap, ◌∙◌, List, [], ◌∷◌, ◌++◌, append_assoc, append-nil,
  length,
}
use rap_cpp.Result.{ok, throw, transport_timeout}
use rap_cpp.Calls.{Call, return, ◌>>=◌, ◌>>◌}
use rap_cpp.Serdes.Buffer.{Buffer}
use rap_cpp.PairedIpc.{
  PairedIpcTransport, ipc_send, ipc_recv, ipc_recv_or_stop, peer, push, pop, pop_or_stop,
}

abbrev pub send_all : List Buffer → Call PairedIpcTransport (Unit {0})
send_all [] = return tt
send_all (buf ∷ bufs) = do ipc_send buf; send_all bufs

abbrev pub recv_all : ℕ → Call PairedIpcTransport (List Buffer)
recv_all zero = return []
recv_all (suc n) = do buf ← ipc_recv; bufs ← recv_all n; return (buf ∷ bufs)

abbrev holding : PairedIpcTransport → List Buffer → PairedIpcTransport
holding t q = record t { tx_queue = q }

send_all_lem :
    (bufs : List Buffer) (t : PairedIpcTransport)
    → send_all bufs t ≡ (holding t (t.tx_queue ++ bufs), ok tt)
unfolding ipc_send push
send_all_lem [] t = rw (append-nil) refl
send_all_lem (buf ∷ bufs) t =
    send_all_lem bufs (holding t (t.tx_queue ++ (buf ∷ []))) ∙ rw append_assoc refl

recv_all_lem :
    (bufs : List Buffer) (t : PairedIpcTransport)
    → (recv_all (length bufs) (peer (holding t bufs))) ≡ (peer (holding t []), ok bufs)
unfolding ipc_recv pop
recv_all_lem [] t = refl
recv_all_lem (buf ∷ bufs) t = rw (recv_all_lem bufs t) refl

-- What one end sends, with nothing under way before, the other end receives once, in the order in
-- which it was sent. One receive more throws a `TransportTimeoutException`; so does
-- `recv(stop_token)` if no stop is requested, and it returns an empty buffer if one is.
pub recv_all-send_all :
    (bufs : List Buffer) (t : PairedIpcTransport)
    → t.tx_queue ≡ []
    → let there = recv_all (length bufs) (peer (send_all bufs t).0) in
      (there.1 ≡ ok bufs)
      × (there.0 ≡ peer t)
      × (ipc_recv there.0 ≡ (peer t, throw transport_timeout))
      × (ipc_recv_or_stop false there.0 ≡ (peer t, throw transport_timeout))
      × (ipc_recv_or_stop true there.0 ≡ (peer t, ok []))
unfolding ipc_recv ipc_recv_or_stop pop pop_or_stop
recv_all-send_all bufs t empty =
    let whole : peer (send_all bufs t).0 ≡ peer (holding t bufs) =
      ap (λ p. peer p.0) (send_all_lem bufs t) ∙ rw empty refl in
    let got : recv_all (length bufs) (peer (send_all bufs t).0) ≡ (peer (holding t []), ok bufs) =
      ap (recv_all (length bufs)) whole ∙ recv_all_lem bufs t in
    let back : peer (holding t []) ≡ peer t = ap (λ q. peer (holding t q)) (sym empty) in
    (
      ap (λ p. p.1) got,
      ap (λ p. p.0) got ∙ back,
      ap (λ p. ipc_recv p.0) got ∙ ap (λ p. (p, throw transport_timeout)) back,
      ap (λ p. ipc_recv_or_stop false p.0) got ∙ ap (λ p. (p, throw transport_timeout)) back,
      ap (λ p. ipc_recv_or_stop true p.0) got ∙ ap (λ p. (p, ok [])) back,
    )
