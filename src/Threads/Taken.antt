-- ===== src/Threads/Taken.antt =====
-- What a thread takes.
use rap_cpp.Base.{ℕ, ◌≡◌, ap, ◌∙◌, subst, some, get_elem?}
use rap_cpp.Configuration.{Cfg, IsUsable, IsUsable-Widths}
use rap_cpp.Result.{ok}
use rap_cpp.Interfaces.{IRegisterTarget}
use rap_cpp.Messages.Response.{Response}
use rap_cpp.Serdes.Size.{Serdes}
use rap_cpp.Serdes.Buffer.{Buffer, Calculate, IsCrc}
use rap_cpp.Serdes.Limits.{IsSerdes}
use rap_cpp.Serdes.Response.Decode.{decode_response}
use rap_cpp.Serdes.Response.Decoded.{decode_response-wire}
use rap_cpp.ServerAdapter.Target.{IsTarget}
use rap_cpp.ServerAdapter.Answers.{IsReply}
use rap_cpp.Session.System.{Sent}
use rap_cpp.Session.Pending.{IsSent}
use rap_cpp.Threads.{Threads, taken, all_ready}
use rap_cpp.Threads.Invariant.{IsThread, ThreadsReach-Inv}
use rap_cpp.Threads.History.{Answered-at}
use rap_cpp.Threads.Steps.{ThreadsReach}

module _ (calculate : Calculate) (cfg : Cfg) (lawful : IsCrc calculate) (u : IsUsable cfg)
    (serdes : Serdes) (v : IsSerdes serdes) {S : Type 0} (target : IRegisterTarget S)
    (t : IsTarget cfg target) where
  -- Whatever number of threads call methods of one client, in any interleaving and with any
  -- timeouts, if the fields of all commands that were sent fit the wire, then what a thread has
  -- taken from the transport is, for some k, the k-th buffer that any of the threads took, and it
  -- is decoded to a reply to the k-th command that any of them sent: the acknowledgement or
  -- negative acknowledgement of that command, with its id.
  pub taken_decodes :
      (s : S) (w : Threads S) (i : ℕ) (x : Sent) (buf : Buffer)
      → ThreadsReach calculate cfg serdes target (all_ready s) w
      → w.thread i ≡ taken x buf
      → (k : ℕ) × (j : ℕ) × (y : Sent) × (get_elem? w.takes k ≡ some (i, buf))
        × (get_elem? w.sends k ≡ some (j, y))
        × IsSent cfg serdes y
        × ((r : Response) × (decode_response calculate cfg buf ≡ ok r)
            × IsReply cfg serdes y.command r)
  taken_decodes s w i x buf reached held =
      let inv = ThreadsReach-Inv calculate cfg lawful u serdes v target t s w reached in
      let (k, found) = subst (IsThread calculate cfg serdes w.takes i) held (inv.threads i) in
      let (j, y, place, (is_sent, (r, whole, is_reply))) =
        Answered-at calculate cfg serdes inv.answered inv.waiting w.takes k i buf inv.replies
          found in
      (
        k,
        j,
        y,
        found,
        ap (λ es. get_elem? es k) inv.sends ∙ place,
        is_sent,
        (
          r,
          ap (decode_response calculate cfg) whole
              ∙ decode_response-wire cfg (IsUsable-Widths u) calculate lawful r is_reply.fits,
          is_reply,
        ),
      )
