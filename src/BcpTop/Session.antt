-- ===== src/BcpTop/Session.antt =====
-- top.py: what the memories of the accelerator hold after a session on the receive pin.
use cdcl_sat_solver.Base.{
  ℕ, ◌<◌, ◌≡◌, refl, ap, ◌∙◌, sym, subst, Bool, false, ◌&&◌, List, [], ◌∷◌, ◌++◌, map,
  if◌then◌else◌,
}
use cdcl_sat_solver.UartTransmitter
use cdcl_sat_solver.UartTransmitter.Frame
use cdcl_sat_solver.UartReceiver
use cdcl_sat_solver.UartReceiver.Samples
use cdcl_sat_solver.UartReceiver.Samples.{listening}
use cdcl_sat_solver.UartReceiver.RoundTrip.{Block, Sound, cycles, bytes_in, pin}
use cdcl_sat_solver.UartReceiver.Spacing.{one_at_a_time, IsListening, run-IsListening}
use cdcl_sat_solver.HostInterface
use cdcl_sat_solver.HostInterface.Commands.{Command}
use cdcl_sat_solver.HostInterface.Receive
use cdcl_sat_solver.HostInterface.Split.{Spaced}
use cdcl_sat_solver.HostInterface.Stored.{after}
use cdcl_sat_solver.HostInterface.Session.{AllStores, sent_bytes, stored_by, session_stored}
use cdcl_sat_solver.BcpAccelerator
use cdcl_sat_solver.BcpAccelerator.Contents.{
  contents, contents-step, all_written, written, writes_in,
}
use cdcl_sat_solver.BcpTop.{State, divisor, host_inputs, host_outputs, bcp_inputs, step}
use cdcl_sat_solver.BcpTop.Parts.{run, trace, run-parts, bytes_arrive}

one-contents :
    (s : State)
    → contents (BcpAccelerator.step s.bcp (bcp_inputs s))
      ≡ written (writes_in (bcp_inputs s)) (contents s.bcp)
one-contents s = contents-step s.bcp (bcp_inputs s)

-- The memories change by what the host interface writes.
run-contents :
    (pins : List Bool) (s : State)
    → contents (run s pins).bcp ≡ after s.host_if (trace host_inputs s pins) (contents s.bcp)
unfolding run trace step all_written bcp_inputs host_outputs Receive.trace
run-contents [] s = refl
run-contents (b ∷ bs) s =
    run-contents bs (step s b)
    ∙ ap (after (step s b).host_if (trace host_inputs (step s b) bs)) (one-contents s)

valid_lem : (s : State) → (host_inputs s).rx_valid ≡ (UartReceiver.outputs s.uart_rx).rx_valid
unfolding host_inputs
valid_lem s = refl

far_apart :
    (s : State) (b : Bool) → (host_inputs s).rx_valid && (host_inputs (step s b)).rx_valid ≡ false
unfolding host_inputs step
far_apart s b = one_at_a_time s.uart_rx b

-- In a run whose last cycle brings no byte, the bytes are far enough apart.
run-Spaced :
    (pins : List Bool) (s : State) (b : Bool)
    → (host_inputs (run s pins)).rx_valid ≡ false
    → Spaced (trace host_inputs s (pins ++ b ∷ []))
unfolding run trace
run-Spaced [] s b v = v
run-Spaced (p ∷ []) s b v = (far_apart s p, v)
run-Spaced (p ∷ q ∷ pins) s b v = (far_apart s p, run-Spaced (q ∷ pins) (step s p) b v)

silent_end :
    (pins : List Bool) (s : State) (b : Bool)
    → (host_inputs (run s pins)).rx_valid ≡ false
    → Receive.bytes (trace host_inputs s (pins ++ b ∷ []))
      ≡ Receive.bytes (trace host_inputs s pins)
unfolding run trace Receive.bytes
silent_end [] s b v = rw v refl
silent_end (p ∷ pins) s b v =
    ap (λ r. if (host_inputs s).rx_valid then (host_inputs s).rx_data ∷ r else r)
      (silent_end pins (step s p) b v)

listening_silent :
    (u : UartReceiver.State) → IsListening u → (UartReceiver.outputs u).rx_valid ≡ false
unfolding UartReceiver.outputs
listening_silent u l = rw l.is_so refl

-- What the host interface is given of bytes that are sent to the receive pin: all of them, never two
-- in a row of cycles, and none in the cycle after the last one.
pub heard :
    (s : State) (t c x : ℕ) (far : UartTransmitter.State) (blocks : List Block) (b : Bool)
    → s.uart_rx ≡ listening t c x
    → x < 256
    → far.fsm ≡ UartTransmitter.idle
    → Sound blocks
    → let given =
        trace host_inputs s (map pin (Frame.line divisor far (cycles blocks)) ++ b ∷ []) in
      Spaced given × (Receive.bytes given ≡ bytes_in blocks)
heard s t c x far blocks b l h f k =
    let pins = map pin (Frame.line divisor far (cycles blocks)) in
    let hears =
      subst IsListening (sym ((run-parts s pins).0 ∙ ap (λ u. Samples.run divisor u pins) l))
        (run-IsListening far t c x blocks f k) in
    let none = valid_lem (run s pins) ∙ listening_silent (run s pins).uart_rx hears in
    (run-Spaced pins s b none, silent_end pins s b none ∙ bytes_arrive s t c x far blocks l h f k)

-- Commands that store, sent byte by byte to the receive pin by a transmitter at the same divisor
-- with any rests between the bytes, while the receiver listens and the host interface waits for a
-- command, leave in the memories of the accelerator what they store, in their order, and change
-- nothing else there, whatever the accelerator does; after one more cycle the host interface waits
-- for the next command.
pub pin_session_stores :
    (cs : List Command) (s : State) (t c x : ℕ) (far : UartTransmitter.State) (blocks : List Block)
    (b : Bool)
    → AllStores cs
    → s.host_if.fsm ≡ HostInterface.cmd_wait
    → s.uart_rx ≡ listening t c x
    → x < 256
    → far.fsm ≡ UartTransmitter.idle
    → Sound blocks
    → bytes_in blocks ≡ sent_bytes cs
    → let pins = map pin (Frame.line divisor far (cycles blocks)) ++ b ∷ [] in
      (contents (run s pins).bcp ≡ stored_by cs (contents s.bcp))
      × ((run s pins).host_if.fsm ≡ HostInterface.cmd_wait)
pin_session_stores cs s t c x far blocks b ok w l h f k e =
    let pins = map pin (Frame.line divisor far (cycles blocks)) ++ b ∷ [] in
    let (spaced, given) = heard s t c x far blocks b l h f k in
    let (stored, ends) =
      session_stored cs s.host_if (trace host_inputs s pins) (contents s.bcp) ok w spaced
        (given ∙ e) in
    (run-contents pins s ∙ stored, ap (λ u. u.fsm) (run-parts s pins).1 ∙ ends)
