-- ===== src/ServerAdapter/Malformed.antt =====
-- `backgroundWork` of ServerAdapter.h when a packet arrives that `decodeCommand` refuses.
use rap_cpp.Base.{◌≡◌, refl, ap, List, [], ◌∷◌, ◌++◌, All, map}
use rap_cpp.Configuration.{Cfg, IsUsable}
use rap_cpp.Result.{throw, Exception}
use rap_cpp.Interfaces.{IRegisterTarget}
use rap_cpp.Messages.{Command}
use rap_cpp.Messages.Response.{Response}
use rap_cpp.Serdes.Size.{Serdes}
use rap_cpp.Serdes.Buffer.{Buffer, Calculate, IsCrc}
use rap_cpp.Serdes.Limits.{IsSerdes}
use rap_cpp.Serdes.Command.Decode.{decode_command}
use rap_cpp.Serdes.Command.Wire.{wire, IsWire, Sendable}
use rap_cpp.Serdes.Response.Wire.{response_wire}
use rap_cpp.ServerAdapter.{Event, received, answer, work_on, background_work}
use rap_cpp.ServerAdapter.Target.{IsTarget}
use rap_cpp.ServerAdapter.Answers.{work_on_answers}
use rap_cpp.ServerAdapter.Worker.{AreReplies}

module _ (calculate : Calculate) (cfg : Cfg) (lawful : IsCrc calculate) (u : IsUsable cfg)
    (serdes : Serdes) (v : IsSerdes serdes) {S : Type 0} (target : IRegisterTarget S) where
  -- If the packets of commands arrive that a client can send, then a packet that `decodeCommand`
  -- refuses, and then anything, the worker sends one reply for each of the commands, in order,
  -- ends with the exception of `decodeCommand`, and answers nothing of what comes after.
  pub background_work_stops :
      IsTarget cfg target
      → (cmds : List Command) (s : S) (bad : Buffer) (e : Exception)
        (events : List (Event target calculate cfg serdes))
      → All (Sendable cfg serdes) cmds
      → All (IsWire cfg) cmds
      → decode_command calculate cfg bad ≡ throw e
      → let run =
          background_work target calculate cfg serdes
            (map (λ cmd. received (wire calculate cfg cmd)) cmds ++ (received bad ∷ events))
            s in
        (run.ended ≡ throw e)
        × ((rs : List Response) × (run.sent ≡ map (response_wire calculate cfg) rs)
            × AreReplies cfg serdes cmds rs)
  unfolding background_work work_on
  background_work_stops t [] s bad e events room fits refused =
      (rw refused refl, ([], rw refused refl, tt))
  background_work_stops t (cmd ∷ cmds) s bad e events room fits refused =
      let (r, called, sent, is_reply) =
        work_on_answers calculate cfg lawful u serdes v target t cmd s room.0 fits.0 in
      let (ended, (rs, rest, replies)) =
        background_work_stops t cmds (answer target cmd s).0 bad e events room.1 fits.1 refused in
      (
        rw sent ended,
        (
          r ∷ rs,
          rw sent (ap (λ bufs. response_wire calculate cfg r ∷ bufs) rest),
          (is_reply, replies),
        ),
      )
