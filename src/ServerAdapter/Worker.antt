-- ===== src/ServerAdapter/Worker.antt =====
-- What `backgroundWork` of ServerAdapter.h does with a sequence of commands.
use rap_cpp.Base.{◌≡◌, refl, ap, List, [], ◌∷◌, All, map}
use rap_cpp.Configuration.{Cfg, IsUsable}
use rap_cpp.Result.{ok}
use rap_cpp.Interfaces.{IRegisterTarget}
use rap_cpp.Messages.{Command}
use rap_cpp.Messages.Response.{Response}
use rap_cpp.Serdes.Size.{Serdes}
use rap_cpp.Serdes.Buffer.{Calculate, IsCrc}
use rap_cpp.Serdes.Limits.{IsSerdes}
use rap_cpp.Serdes.Command.Wire.{wire, IsWire, Sendable}
use rap_cpp.Serdes.Response.Wire.{response_wire}
use rap_cpp.ServerAdapter.{Run, received, answer, background_work}
use rap_cpp.ServerAdapter.Target.{IsTarget}
use rap_cpp.ServerAdapter.Answers.{IsReply, work_on_answers}

-- One reply for each command, in order.
abbrev pub AreReplies : Cfg → Serdes → List Command → List Response → Type 0
AreReplies cfg serdes [] [] = Unit
AreReplies cfg serdes (cmd ∷ cmds) (r ∷ rs) =
    IsReply cfg serdes cmd r × AreReplies cfg serdes cmds rs
AreReplies cfg serdes _ _ = ⊥

-- What the worker does when the packets of these commands arrive.
module _ (calculate : Calculate) (cfg : Cfg) (serdes : Serdes) {S : Type 0}
    (target : IRegisterTarget S) where
  abbrev pub run_on : List Command → S → Run target calculate cfg serdes
  run_on cmds s =
      background_work target calculate cfg serdes
        (map (λ cmd. received (wire calculate cfg cmd)) cmds) s

module _ (calculate : Calculate) (cfg : Cfg) (lawful : IsCrc calculate) (u : IsUsable cfg)
    (serdes : Serdes) (v : IsSerdes serdes) {S : Type 0} (target : IRegisterTarget S) where
  -- If the packets of commands arrive that a client can send, and whose fields fit, then the
  -- worker sends for each of them, in their order, the packet of a response with the command's
  -- transaction id that is its acknowledgement or its negative acknowledgement, and goes on.
  pub background_work_answers :
      IsTarget cfg target
      → (cmds : List Command) (s : S) → All (Sendable cfg serdes) cmds
      → All (IsWire cfg) cmds
      → ((run_on calculate cfg serdes target cmds s).ended ≡ ok tt)
        × ((rs : List Response) × ((run_on calculate cfg serdes target cmds s).sent
              ≡ map (response_wire calculate cfg) rs)
            × AreReplies cfg serdes cmds rs)
  unfolding background_work
  background_work_answers t [] s room fits = (refl, ([], refl, tt))
  background_work_answers t (cmd ∷ cmds) s room fits =
      let (r, e, sent, is_reply) =
        work_on_answers calculate cfg lawful u serdes v target t cmd s room.0 fits.0 in
      let (ended, (rs, rest, replies)) =
        background_work_answers t cmds (answer target cmd s).0 room.1 fits.1 in
      (
        rw sent ended,
        (
          r ∷ rs,
          rw sent (ap (λ bufs. response_wire calculate cfg r ∷ bufs) rest),
          (is_reply, replies),
        ),
      )
