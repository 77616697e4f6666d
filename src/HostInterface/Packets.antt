-- ===== src/HostInterface/Packets.antt =====
-- host_interface.py, from IMPL_CHECK on: the packet of an implication and the packet of the end.
use cdcl_sat_solver.Base.{
  ℕ, ◌+◌, ◌*◌, ◌/◌, ◌%◌, ◌^◌, ◌<◌, ◌≡◌, refl, ap, ◌∙◌, Bool, true, false, if◌then◌else◌, List, [],
  ◌∷◌, ◌++◌, arith, bit, bit-lt-two, take,
}
use native.Mathlib.Nat.{mod-eq_of_lt}
use cdcl_sat_solver.ImplicationFifo.{Entry}
use cdcl_sat_solver.HostInterface.{
  State, Inputs, cmd_wait, impl_check, outputs, step, outputs_in, impl_packet, done_packet,
  rsp_implication, rsp_done_ok, rsp_done_conf,
}
use cdcl_sat_solver.HostInterface.Receive.{run}
use cdcl_sat_solver.HostInterface.Send.{sent, pops, ready_cycles, low_bytes, sending, sends, sender}

low_byte : (b x : ℕ) → b < 256 → (b + 256 * x) % 256 ≡ b
low_byte b x lt = omega arith

high_bytes : (b x : ℕ) → b < 256 → (b + 256 * x) / 256 ≡ x
high_bytes b x lt = omega arith

-- The bytes of a packet.
abbrev pub implication_bytes : Entry → List ℕ
implication_bytes e =
    rsp_implication ∷ e.var / 256 ∷ e.var % 256 ∷ bit e.value ∷ e.reason / 256 ∷ e.reason % 256 ∷ []

abbrev pub done_bytes : Bool → ℕ → List ℕ
done_bytes conflict cid =
    (if conflict then rsp_done_conf else rsp_done_ok) ∷ cid / 256 ∷ cid % 256 ∷ 0 ∷ []

packet_of_low_bytes :
    (a b c d e f : ℕ)
    → a < 256
    → b < 256
    → c < 256
    → d < 256
    → e < 256
    → f < 256
    → low_bytes 6 (a + 256 * (b + 256 * (c + 256 * (d + 256 * (e + 256 * f)))))
      ≡ a ∷ b ∷ c ∷ d ∷ e ∷ f ∷ []
packet_of_low_bytes a b c d e f ha hb hc hd he hf =
    rw
      (
        low_byte a (b + 256 * (c + 256 * (d + 256 * (e + 256 * f)))) ha,
        high_bytes a (b + 256 * (c + 256 * (d + 256 * (e + 256 * f)))) ha,
        low_byte b (c + 256 * (d + 256 * (e + 256 * f))) hb,
        high_bytes b (c + 256 * (d + 256 * (e + 256 * f))) hb,
        low_byte c (d + 256 * (e + 256 * f)) hc,
        high_bytes c (d + 256 * (e + 256 * f)) hc,
        low_byte d (e + 256 * f) hd,
        high_bytes d (e + 256 * f) hd,
        low_byte e f he,
        high_bytes e f he,
        mod-eq_of_lt hf,
      )
      refl

impl_packet-bytes :
    (e : Entry)
    → e.var < 2 ^ 9
    → e.reason < 2 ^ 13
    → low_bytes 6 (impl_packet e) ≡ implication_bytes e
unfolding impl_packet
impl_packet-bytes e v r =
    ap (low_bytes 6) (omega arith)
    ∙ packet_of_low_bytes rsp_implication (e.var / 256) (e.var % 256) (bit e.value) (e.reason / 256)
        (e.reason % 256) (omega arith) (omega arith) (omega arith)
        (omega (arith, bit-lt-two e.value)) (omega arith) (omega arith)

horner :
    (a b c : ℕ)
    → a + b * 256 + c * 65536 ≡ a + 256 * (b + 256 * (c + 256 * (0 + 256 * (0 + 256 * 0))))
horner a b c = omega arith

four_bytes :
    (a cid : ℕ)
    → a < 256
    → cid < 2 ^ 13
    → low_bytes 4 (a + (cid / 256) * 256 + (cid % 256) * 65536) ≡ a ∷ cid / 256 ∷ cid % 256 ∷ 0 ∷ []
four_bytes a cid la lc =
    ap (low_bytes 4) (horner a (cid / 256) (cid % 256))
    ∙ ap (take 4) (
        packet_of_low_bytes a (cid / 256) (cid % 256) 0 0 0 la (omega arith) (omega arith)
          (omega arith) (omega arith) (omega arith))

done_packet-bytes :
    (conflict : Bool) (cid : ℕ)
    → cid < 2 ^ 13
    → low_bytes 4 (done_packet conflict cid) ≡ done_bytes conflict cid
unfolding done_packet
done_packet-bytes true cid r = four_bytes rsp_done_conf cid (omega arith) r
done_packet-bytes false cid r = four_bytes rsp_done_ok cid (omega arith) r

silent :
    (s : State) (c : Inputs) (cs : List Inputs)
    → s.fsm ≡ impl_check
    → (sent s (c ∷ cs) ≡ sent (step s c) cs) × (pops s (c ∷ cs) ≡ pops (step s c) cs)
unfolding sent pops outputs outputs_in
silent s c cs h = (rw h refl, rw h (omega arith))

begins :
    (s : State) (c : Inputs)
    → s.fsm ≡ impl_check
    → c.impl_valid ≡ true
    → step s c ≡ sending s (sender true) 6 (impl_packet c.impl)
unfolding step
begins s c h v = rw (h, v) refl

finishes :
    (s : State) (c : Inputs)
    → s.fsm ≡ impl_check
    → c.impl_valid ≡ false
    → step s c ≡ sending s (sender false) 4 (done_packet s.conflict_reg s.conflict_id_reg)
unfolding step
finishes s c h v = rw (h, v) refl

-- From IMPL_CHECK with an implication in the FIFO, whatever the pauses of the transmitter: its six
-- bytes are sent in order, the FIFO is popped once, and IMPL_CHECK is reached again with the result
-- of the run kept.
pub reports_implication :
    (s : State) (c : Inputs) (is : List Inputs) (last : Inputs)
    → s.fsm ≡ impl_check
    → c.impl_valid ≡ true
    → c.impl.var < 2 ^ 9
    → c.impl.reason < 2 ^ 13
    → ready_cycles is ≡ 5
    → last.tx_ready ≡ true
    → let all = c ∷ is ++ last ∷ [] in
      (sent s all ≡ implication_bytes c.impl)
      × (pops s all ≡ 1)
      × ((run s all).fsm ≡ impl_check)
      × ((run s all).conflict_reg ≡ s.conflict_reg)
      × ((run s all).conflict_id_reg ≡ s.conflict_id_reg)
unfolding run
reports_implication s c is last fs v wv wr n l =
    let h = sends s true 5 (impl_packet c.impl) is last l n (omega arith) in
    let e = begins s c fs v in
    let whole = ap (λ t. run t (is ++ last ∷ [])) e ∙ h.1 in
    (
      (silent s c (is ++ last ∷ []) fs).0
          ∙ ap (λ t. sent t (is ++ last ∷ [])) e
          ∙ h.0
          ∙ impl_packet-bytes c.impl wv wr,
      (silent s c (is ++ last ∷ []) fs).1 ∙ ap (λ t. pops t (is ++ last ∷ [])) e ∙ h.2,
      ap (λ t. t.fsm) whole,
      ap (λ t. t.conflict_reg) whole,
      ap (λ t. t.conflict_id_reg) whole,
    )

-- From IMPL_CHECK with an empty FIFO, whatever the pauses of the transmitter: the four bytes with
-- the latched result are sent in order, nothing is popped, and the interface waits for a command.
pub reports_end :
    (s : State) (c : Inputs) (is : List Inputs) (last : Inputs)
    → s.fsm ≡ impl_check
    → c.impl_valid ≡ false
    → s.conflict_id_reg < 2 ^ 13
    → ready_cycles is ≡ 3
    → last.tx_ready ≡ true
    → let all = c ∷ is ++ last ∷ [] in
      (sent s all ≡ done_bytes s.conflict_reg s.conflict_id_reg)
      × (pops s all ≡ 0)
      × ((run s all).fsm ≡ cmd_wait)
unfolding run
reports_end s c is last fs v w n l =
    let h =
      sends s false 3 (done_packet s.conflict_reg s.conflict_id_reg) is last l n (omega arith) in
    let e = finishes s c fs v in
    (
      (silent s c (is ++ last ∷ []) fs).0
          ∙ ap (λ t. sent t (is ++ last ∷ [])) e
          ∙ h.0
          ∙ done_packet-bytes s.conflict_reg s.conflict_id_reg w,
      (silent s c (is ++ last ∷ []) fs).1 ∙ ap (λ t. pops t (is ++ last ∷ [])) e ∙ h.2,
      ap (λ t. t.fsm) (ap (λ t. run t (is ++ last ∷ [])) e ∙ h.1),
    )
