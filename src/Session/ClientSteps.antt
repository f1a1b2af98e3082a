-- ===== src/Session/ClientSteps.antt =====
-- The invariant over the steps of the client.
use rap_cpp.Base.{
  ℕ, ◌≡◌, refl, ◌∙◌, sym, subst, List, [], ◌∷◌, All, All-append, length, length-append, suc, ◌++◌,
  arith,
}
use rap_cpp.Configuration.{Cfg, IsUsable}
use rap_cpp.Serdes.Size.{Serdes}
use rap_cpp.Serdes.Buffer.{Calculate, IsCrc}
use rap_cpp.Serdes.Limits.{IsSerdes}
use rap_cpp.Serdes.Command.Bounds.{encode_command_ok}
use rap_cpp.PairedIpc.{push}
use rap_cpp.Session.System.{
  Sent, Session, waiting, tail_of, ClientStep, refuse, send, take_response, time_out,
}
use rap_cpp.Session.Pending.{
  IsSent, Ascending, Ascending-append, Ascending-raise, Ascending-lower, IsLag,
}
use rap_cpp.Session.Flow.{Flow-of, Flow, Flow-send, Flow-oldest}
use rap_cpp.Session.Invariant.{Inv, IsLag-of, pop_ok}

-- When the client takes a response, the first of the pending commands is no longer pending.
IsLag-take :
    (x : Sent) (pending : List Sent) (timeouts : ℕ)
    → IsLag (waiting x) pending timeouts
    → length (tail_of pending) ≡ timeouts
IsLag-take x pending timeouts ([], whole, count) = rw whole count
IsLag-take x pending timeouts (y ∷ stale, whole, count) =
    rw whole (omega (arith, length-append stale (x ∷ [])))

IsLag-late :
    (x : Sent) (pending : List Sent) (timeouts : ℕ)
    → IsLag (waiting x) pending timeouts
    → length pending ≡ suc timeouts
IsLag-late x pending timeouts (stale, whole, count) =
    rw whole (omega (arith, length-append stale (x ∷ [])))

module _ (calculate : Calculate) (cfg : Cfg) (lawful : IsCrc calculate) (u : IsUsable cfg)
    (serdes : Serdes) (v : IsSerdes serdes) {S : Type 0} where
  pub ClientStep-Inv :
      {s t : Session S}
      → ClientStep calculate cfg serdes s t
      → Inv calculate cfg serdes s
      → Inv calculate cfg serdes t
  unfolding push
  ClientStep-Inv {s} (refuse cmd free id refused) inv = record {
    counter = omega (arith, inv.counter);
    sent = inv.sent;
    ascending = Ascending-raise 0 s.pending s.drawn inv.ascending;
    lag = inv.lag;
    flow = inv.flow;
  }
  ClientStep-Inv {s} (send cmd free id fits encoded) inv =
      let (room, whole) = encode_command_ok calculate cfg lawful u serdes v cmd encoded in
      let x : Sent = record { serial = s.drawn; command = cmd } in
      record {
        counter = omega (arith, inv.counter);
        sent =
            All-append (IsSent cfg serdes) s.pending (x ∷ []) inv.sent
              (record { sendable = room; fits = fits; id = id ∙ inv.counter }, tt);
        ascending = Ascending-append 0 s.pending s.drawn x refl inv.ascending;
        lag = (s.pending, refl, IsLag-of inv free);
        flow =
            subst
              (λ buf.
                Flow calculate cfg serdes s.server.replies s.server.worker
                  (s.server.commands ++ (buf ∷ [])) (s.pending ++ (x ∷ [])))
              (sym whole)
              (Flow-send calculate cfg serdes s.server.replies s.server.worker s.server.commands
                s.pending x inv.flow);
      }
  ClientStep-Inv {s} (take_response {x} {buf} {rest} held popped) inv =
      let (y, split, reply, flow) =
        Flow-oldest calculate cfg serdes buf rest s.server.worker s.server.commands s.pending (
          Flow-of calculate cfg serdes s.server s.pending inv.flow (pop_ok s.server.replies popped)
            refl refl) in
      record {
        counter = inv.counter;
        sent = (subst (All (IsSent cfg serdes)) split inv.sent).1;
        ascending =
            let up = subst (λ xs. Ascending 0 xs s.drawn) split inv.ascending in
            Ascending-lower (suc y.serial) (tail_of s.pending) s.drawn 0 (omega arith) up.1;
        lag = IsLag-take x s.pending s.timeouts (IsLag-of inv held);
        flow = flow;
      }
  ClientStep-Inv {s} (time_out {x} held popped) inv = record {
    counter = inv.counter;
    sent = inv.sent;
    ascending = inv.ascending;
    lag = IsLag-late x s.pending s.timeouts (IsLag-of inv held);
    flow = inv.flow;
  }
