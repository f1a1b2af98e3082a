-- ===== src/Threads/Linear.antt =====
-- Several threads as one sequence of commands that the target performs.
use rap_cpp.Base.{
  ℕ, ◌≡◌, ◌++◌, sym, ap, ◌∙◌, List, map, some, get_elem?, get_elem?-append_left, get_elem?-map,
  get_elem?-map_back,
}
use rap_cpp.Configuration.{Cfg, IsUsable, IsUsable-Widths}
use rap_cpp.Result.{ok}
use rap_cpp.Interfaces.{IRegisterTarget}
use rap_cpp.Messages.{Command}
use rap_cpp.Messages.Response.{Response}
use rap_cpp.Serdes.Size.{Serdes}
use rap_cpp.Serdes.Buffer.{Buffer, Calculate, IsCrc}
use rap_cpp.Serdes.Limits.{IsSerdes}
use rap_cpp.Serdes.Response.Decode.{decode_response}
use rap_cpp.Serdes.Response.Decoded.{decode_response-wire}
use rap_cpp.Serdes.Response.Wire.{response_wire}
use rap_cpp.ServerAdapter.Target.{IsTarget}
use rap_cpp.Session.Log.{Performed, Performed-at}
use rap_cpp.Threads.{Threads, all_ready}
use rap_cpp.Threads.Log.{ThreadsReach-Log}
use rap_cpp.Threads.Steps.{ThreadsReach}

module _ (calculate : Calculate) (cfg : Cfg) (lawful : IsCrc calculate) (u : IsUsable cfg)
    (serdes : Serdes) (v : IsSerdes serdes) {S : Type 0} (target : IRegisterTarget S)
    (t : IsTarget cfg target) where
  -- Let any number of threads call methods of one client, in any interleaving and with any
  -- timeouts, and let the fields of all commands that were sent fit the wire. Then the target has
  -- performed, starting in the state `s`, the commands that were sent, from the first on and in the
  -- order in which they were sent, but for some at the end; and the k-th buffer that any of the
  -- threads took is decoded to the response that the k-th of these commands was performed with.
  pub taken-Performed :
      (s : S) (w : Threads S) (k i : ℕ) (buf : Buffer)
      → ThreadsReach calculate cfg serdes target (all_ready s) w
      → get_elem? w.takes k ≡ some (i, buf)
      → (log : List (Command × Response)) × (unperformed : List Command) × (c : Command)
        × (r : Response) × Performed cfg serdes target s log w.server.device
        × (map (λ e. e.1.command) w.sends ≡ map (λ e. e.0) log ++ unperformed)
        × (get_elem? log k ≡ some (c, r))
        × (decode_response calculate cfg buf ≡ ok r)
  taken-Performed s w k i buf reached found =
      let l = ThreadsReach-Log calculate cfg lawful u serdes v target t s w reached in
      let packet : get_elem? (map (response_wire calculate cfg) l.before) k ≡ some buf =
        ap (λ bs. get_elem? bs k) (sym l.packets) ∙ get_elem?-map (λ b. b.1) w.takes k found in
      let (r, place, whole) = get_elem?-map_back (response_wire calculate cfg) l.before k packet in
      let (e, entry, same) =
        get_elem?-map_back (λ d. d.1) l.log k
          (ap (λ rs. get_elem? rs k) l.responses
            ∙ get_elem?-append_left l.before l.outstanding k place) in
      let is_reply = Performed-at cfg serdes target s w.server.device l.log k l.performed entry in
      (
        l.log,
        l.dropped ++ l.queued,
        e.0,
        e.1,
        l.performed,
        l.calls,
        entry,
        ap (decode_response calculate cfg) (whole ∙ ap (response_wire calculate cfg) same)
            ∙ decode_response-wire cfg (IsUsable-Widths u) calculate lawful e.1 is_reply.fits,
      )
