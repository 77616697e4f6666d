-- ===== src/BcpTop/Start.antt =====
-- top.py: a start that is sent to the receive pin.
use cdcl_sat_solver.Base.{
  ℕ, ◌/◌, ◌%◌, ◌^◌, ◌<◌, ◌≡◌, refl, ap, ◌∙◌, Bool, List, [], ◌∷◌, ◌++◌, map, if◌then◌else◌,
}
use cdcl_sat_solver.UartTransmitter
use cdcl_sat_solver.UartTransmitter.Frame
use cdcl_sat_solver.UartReceiver.Samples.{listening}
use cdcl_sat_solver.UartReceiver.RoundTrip.{Block, Sound, cycles, bytes_in, pin}
use cdcl_sat_solver.HostInterface
use cdcl_sat_solver.HostInterface.Receive
use cdcl_sat_solver.HostInterface.Started.{started, starts_once}
use cdcl_sat_solver.BcpAccelerator
use cdcl_sat_solver.BcpTop.{State, divisor, host_inputs, host_outputs, bcp_inputs, step}
use cdcl_sat_solver.BcpTop.Parts.{trace}
use cdcl_sat_solver.BcpTop.Session.{heard}

-- The literals on which the accelerator is started.
unfoldable pub started_on : List BcpAccelerator.Inputs → List ℕ
started_on [] = []
started_on (i ∷ is) = if i.start then i.false_lit ∷ started_on is else started_on is

same_starts :
    (s : State) (pins : List Bool)
    → started_on (trace bcp_inputs s pins)
      ≡ started (Receive.trace s.host_if (trace host_inputs s pins))
unfolding started_on started trace step bcp_inputs host_outputs Receive.trace
same_starts s [] = refl
same_starts s (b ∷ bs) =
    let host = host_outputs s in
    ap (λ r. if host.bcp_start then host.bcp_false_lit ∷ r else r) (same_starts (step s b) bs)

-- The bytes of BCP_START, 0x05 and the literal with its high byte first, sent to the receive pin by a
-- transmitter at the same divisor with any rests between them, while the receiver listens and the
-- host interface waits for a command: the start of the accelerator is raised in one cycle alone, with
-- that literal on its port, whatever the accelerator does meanwhile.
pub pin_starts :
    (lit : ℕ) (s : State) (t c x : ℕ) (far : UartTransmitter.State) (blocks : List Block) (b : Bool)
    → lit < 2 ^ 10
    → s.host_if.fsm ≡ HostInterface.cmd_wait
    → s.uart_rx ≡ listening t c x
    → x < 256
    → far.fsm ≡ UartTransmitter.idle
    → Sound blocks
    → bytes_in blocks ≡ 0x05 ∷ lit / 256 ∷ lit % 256 ∷ []
    → started_on (trace bcp_inputs s (map pin (Frame.line divisor far (cycles blocks)) ++ b ∷ []))
      ≡ lit ∷ []
pin_starts lit s t c x far blocks b fits w l h f k e =
    let pins = map pin (Frame.line divisor far (cycles blocks)) ++ b ∷ [] in
    let (spaced, given) = heard s t c x far blocks b l h f k in
    same_starts s pins
    ∙ starts_once s.host_if lit (trace host_inputs s pins) fits w spaced (given ∙ e)
