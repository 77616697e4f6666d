-- ===== src/BcpTopJtag/Parts.antt =====
-- top_jtag.py: what a run of the whole is for its parts, and what the memories of the accelerator
-- hold after a session of requests.
use cdcl_sat_solver.Base.{◌≡◌, refl, ap, ◌∙◌, sym, subst, List, [], ◌∷◌}
use cdcl_sat_solver.JtagHostInterface
use cdcl_sat_solver.JtagHostInterface.Scan
use cdcl_sat_solver.JtagHostInterface.Writes.{writes_out}
use cdcl_sat_solver.JtagHostInterface.Stores.{
  Ready, Step, Requests, all_edges, all_stored, Requests-store,
}
use cdcl_sat_solver.BcpAccelerator
use cdcl_sat_solver.BcpAccelerator.Contents.{
  contents, contents-step, all_written, written, writes_in,
}
use cdcl_sat_solver.BcpTopJtag.{State, Edge, jtck, clk, bcp_ports, bcp_inputs, step}

unfoldable pub run : State → List Edge → State
run s [] = s
run s (e ∷ es) = run (step s e) es

-- The edges that the host interface sees, with the ports of the accelerator.
unfoldable pub host_edges : State → List Edge → List JtagHostInterface.Edge
host_edges s [] = []
host_edges s (jtck i ∷ es) = JtagHostInterface.jtck i ∷ host_edges (step s (jtck i)) es
host_edges s (clk ∷ es) = JtagHostInterface.clk (bcp_ports s) ∷ host_edges (step s clk) es

run-host : (es : List Edge) (s : State) → (run s es).host_if ≡ Scan.run s.host_if (host_edges s es)
unfolding run host_edges step Scan.run
run-host [] s = refl
run-host (jtck i ∷ es) s = run-host es (step s (jtck i))
run-host (clk ∷ es) s = run-host es (step s clk)

one-contents :
    (s : State)
    → contents (BcpAccelerator.step s.bcp (bcp_inputs s))
      ≡ written (writes_in (bcp_inputs s)) (contents s.bcp)
one-contents s = contents-step s.bcp (bcp_inputs s)

-- The memories change by what the host interface writes.
run-contents :
    (es : List Edge) (s : State)
    → contents (run s es).bcp
      ≡ all_written (writes_out s.host_if (host_edges s es)) (contents s.bcp)
unfolding run host_edges step writes_out all_written bcp_inputs
run-contents [] s = refl
run-contents (jtck i ∷ es) s = run-contents es (step s (jtck i))
run-contents (clk ∷ es) s =
    run-contents es (step s clk)
    ∙ ap (all_written (writes_out (step s clk).host_if (host_edges (step s clk) es)))
        (one-contents s)

-- A session of requests over JTAG, each with five cycles of the system clock or more after its
-- update, leaves in the memories of the accelerator what its commands store, in their order, and
-- changes nothing else there, whatever the accelerator does meanwhile; the host interface is then
-- ready for the next request.
pub session_stores :
    (s : State) (es : List Edge) (qs : List Step)
    → Ready s.host_if
    → Requests qs
    → host_edges s es ≡ all_edges qs
    → (contents (run s es).bcp ≡ all_stored qs (contents s.bcp)) × Ready (run s es).host_if
session_stores s es qs r q e =
    let stored = Requests-store qs s.host_if (contents s.bcp) r q in
    (
      run-contents es s
          ∙ ap (λ xs. all_written (writes_out s.host_if xs) (contents s.bcp)) e
          ∙ stored.0,
      subst Ready (sym (run-host es s ∙ ap (Scan.run s.host_if) e)) stored.1,
    )
