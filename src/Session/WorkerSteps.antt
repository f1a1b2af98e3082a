-- ===== src/Session/WorkerSteps.antt =====
-- The invariant over the steps of the worker.
use rap_cpp.Base.{All, List, ◌≡◌, refl, ap, ◌∙◌, sym, subst}
use rap_cpp.Configuration.{Cfg, IsUsable}
use rap_cpp.Result.{ok, throw, ok-injective}
use rap_cpp.Interfaces.{IRegisterTarget}
use rap_cpp.Serdes.Size.{Serdes}
use rap_cpp.Serdes.Buffer.{Buffer, Calculate, IsCrc}
use rap_cpp.Serdes.Limits.{IsSerdes}
use rap_cpp.Serdes.Command.Wire.{wire}
use rap_cpp.Serdes.Response.Wire.{response_wire}
use rap_cpp.PairedIpc.{push, pop_or_stop}
use rap_cpp.ServerAdapter.{work_on}
use rap_cpp.ServerAdapter.Target.{IsTarget}
use rap_cpp.ServerAdapter.Answers.{work_on_answers}
use rap_cpp.Session.Server.{
  Server, returned, terminated, WorkerStep, take_command, work_throws, send_response, recv_throws,
  stop, stop_after_recv,
}
use rap_cpp.Session.System.{Sent, Session}
use rap_cpp.Session.Pending.{IsSent}
use rap_cpp.Session.Flow.{
  ServerFlow, Flow-of, IsReplyTo, Left-all, Flow-drop, Flow-reply, Flow-leave, Flow-take, Flow-head,
}
use rap_cpp.Session.Invariant.{Inv, pop_ok, pop_throws}

module _ (calculate : Calculate) (cfg : Cfg) (lawful : IsCrc calculate) (u : IsUsable cfg)
    (serdes : Serdes) (v : IsSerdes serdes) {S : Type 0} (target : IRegisterTarget S)
    (t : IsTarget cfg target) where
  -- The worker answers the packet of a command that was sent.
  pub work_on-IsReplyTo :
      (x : Sent) (s : S) (c : Buffer)
      → IsSent cfg serdes x
      → c ≡ wire calculate cfg x.command
      → (out : Buffer) × ((work_on target calculate cfg serdes c s).1 ≡ ok out)
        × IsReplyTo calculate cfg serdes x.command out
  work_on-IsReplyTo x s c sent whole =
      let (r, e, worked, is_reply) =
        work_on_answers calculate cfg lawful u serdes v target t x.command s sent.sendable
          sent.fits in
      (
        response_wire calculate cfg r,
        ap (λ b. (work_on target calculate cfg serdes b s).1) whole ∙ ap (λ p. p.1) worked,
        (r, refl, is_reply),
      )

  pub WorkerStep-Flow :
      {p q : Server S} (xs : List Sent)
      → All (IsSent cfg serdes) xs
      → WorkerStep calculate cfg serdes target p q
      → ServerFlow calculate cfg serdes p xs
      → ServerFlow calculate cfg serdes q xs
  unfolding push pop_or_stop
  WorkerStep-Flow {p} xs sent (take_command {buf} {out} {rest} held popped worked) flow =
      Flow-take calculate cfg serdes p.replies buf rest xs out sent
        (λ x is_sent whole.
          let (made, e, reply) = work_on-IsReplyTo x p.device buf is_sent whole in
          let same : made ≡ out = ok-injective (sym e ∙ ap (λ m. m.1) worked) in
          subst (IsReplyTo calculate cfg serdes x.command) same reply)
        (Flow-of calculate cfg serdes p xs flow refl held (pop_ok p.commands popped))
  WorkerStep-Flow {p} xs sent (work_throws {buf} {e} {rest} held popped worked) flow =
      let (x, is_sent, whole) =
        Flow-head calculate cfg serdes p.replies buf rest xs sent
          (Flow-of calculate cfg serdes p xs flow refl held (pop_ok p.commands popped)) in
      let (made, done, reply) = work_on-IsReplyTo x p.device buf is_sent whole in
      absurd (let bad : ok made ≡ throw e = sym done ∙ ap (λ m. m.1) worked in cc)
  WorkerStep-Flow {p} xs sent (send_response {out} held) flow =
      Flow-reply calculate cfg serdes p.replies out p.commands xs
        (Flow-of calculate cfg serdes p xs flow refl held refl)
  WorkerStep-Flow {p} xs sent (recv_throws {e} held popped) flow =
      Flow-leave calculate cfg serdes p.replies (terminated e) p.commands xs
        (λ ys q. ((pop_throws p.commands popped).1, q))
        (Flow-of calculate cfg serdes p xs flow refl held refl)
  WorkerStep-Flow {p} xs sent (stop held) flow =
      Flow-leave calculate cfg serdes p.replies returned p.commands xs
        (Left-all calculate cfg serdes p.commands)
        (Flow-of calculate cfg serdes p xs flow refl held refl)
  WorkerStep-Flow {p} xs sent (stop_after_recv {buf} {rest} held popped) flow =
      Flow-drop calculate cfg serdes p.replies buf rest xs
        (Flow-of calculate cfg serdes p xs flow refl held (pop_ok p.commands popped))

  pub WorkerStep-Inv :
      {s : Session S} {q : Server S}
      → WorkerStep calculate cfg serdes target s.server q
      → Inv calculate cfg serdes s
      → Inv calculate cfg serdes (record s { server = q })
  WorkerStep-Inv {s} st inv = record {
    counter = inv.counter;
    sent = inv.sent;
    ascending = inv.ascending;
    lag = inv.lag;
    flow = WorkerStep-Flow s.pending inv.sent st inv.flow;
  }
