-- ===== src/UartReceiver/RoundTrip.antt =====
-- uart_tx.py and uart_rx.py at the divisor of top.py, on one line: bytes go through.
use cdcl_sat_solver.Base.{
  zero, suc, ℕ, ◌<◌, ◌≡◌, refl, ap, ◌∙◌, Bool, true, false, List, [], ◌∷◌, ◌++◌, length, map,
  replicate,
}
use cdcl_sat_solver.UartTransmitter
use cdcl_sat_solver.UartTransmitter.{Inputs}
use cdcl_sat_solver.UartTransmitter.Frame.{
  line, periods, Last, spread, frame, transmits, rests, ended, shifted,
}
use cdcl_sat_solver.UartReceiver.Samples.{received, levels, listening, hears, hears_nothing}

-- What an idle transmitter does next: a cycle without a byte, or a byte and the ten periods of its
-- frame, whatever the inputs in them are.
pub data Block : Type 0 where
  rest_cycle : Inputs → Block
  byte_cycles : Inputs → List (List Inputs) → Block

abbrev pub cycles : List Block → List Inputs
cycles [] = []
cycles (rest_cycle i ∷ bs) = i ∷ cycles bs
cycles (byte_cycles i ps ∷ bs) = i ∷ periods ps (cycles bs)

abbrev pub Sound : List Block → Type 0
Sound [] = Unit
Sound (rest_cycle i ∷ bs) = (i.tx_valid ≡ false) × Sound bs
Sound (byte_cycles i ps ∷ bs) =
    (i.tx_valid ≡ true) × (i.tx_data < 256) × (length ps ≡ 10) × Last 12 ps × Sound bs

abbrev pub bytes_in : List Block → List ℕ
bytes_in [] = []
bytes_in (rest_cycle i ∷ bs) = bytes_in bs
bytes_in (byte_cycles i ps ∷ bs) = i.tx_data ∷ bytes_in bs

abbrev pub pin : Bool × Bool → Bool
pin o = o.0

map-replicate :
    (d : ℕ) (b : Bool) (rest : List (Bool × Bool))
    → map pin (replicate d (b, false) ++ rest) ≡ replicate d b ++ map pin rest
map-replicate zero b rest = refl
map-replicate (suc d) b rest = ap (◌∷◌ b) (map-replicate d b rest)

pub map-spread :
    (d : ℕ) (bs : List Bool) (rest : List (Bool × Bool))
    → map pin (spread d bs rest) ≡ levels d bs (map pin rest)
map-spread d [] rest = refl
map-spread d (b ∷ bs) rest =
    map-replicate d b (spread d bs rest) ∙ ap (λ r. replicate d b ++ r) (map-spread d bs rest)

-- The receiver, listening to the line of an idle transmitter at divisor 12, reports the bytes that
-- the transmitter accepts, in order, each in the course of its frame; the transmitter may rest
-- between bytes, and its inputs during a frame may be anything.
pub round_trip :
    (s : UartTransmitter.State) (t c x : ℕ) (bs : List Block)
    → s.fsm ≡ UartTransmitter.idle
    → x < 256
    → Sound bs
    → received 12 (listening t c x) (map pin (line 12 s (cycles bs))) ≡ bytes_in bs
unfolding received line
round_trip s t c x [] f h k = refl
round_trip s t c x (rest_cycle i ∷ bs) f h k =
    ap (λ l. received 12 (listening t c x) (map pin l)) (rests 12 s i (cycles bs) f k.0)
    ∙ hears_nothing t c x (map pin (line 12 s (cycles bs)))
    ∙ round_trip s t c x bs f h k.1
round_trip s t c x (byte_cycles i ps ∷ bs) f h k =
    let n = i.tx_data in
    let after = ended (shifted 8 n) in
    let sent = line 12 after (cycles bs) in
    ap (λ l. received 12 (listening t c x) (map pin l))
      (transmits 11 s i ps (cycles bs) f k.0 k.2 k.3)
    ∙ hears_nothing t c x (map pin (spread 12 (frame n) sent))
    ∙ ap (received 12 (listening t c x)) (map-spread 12 (frame n) sent)
    ∙ hears t c x n (map pin sent) h k.1
    ∙ ap (λ ns. n ∷ ns) (round_trip after 0 8 n bs refl k.1 k.4)
