-- ===== src/UartReceiver/Errors.antt =====
-- uart_rx.py at the divisor of top.py, on a line with faults: false starts and broken frames.
use cdcl_sat_solver.Base.{
  ℕ, zero, suc, ◌-◌, ◌<◌, ◌≡◌, refl, ap, ◌∙◌, Bool, true, false, if◌then◌else◌, bit_at, List, [],
  ◌∷◌, ◌++◌, replicate, arith, ◌/◌,
}
use cdcl_sat_solver.UartTransmitter.Frame.{frame, bits}
use cdcl_sat_solver.UartReceiver.{State, Outputs, idle, outputs, step}
use cdcl_sat_solver.UartReceiver.Samples.{levels, listening, eighth, sampled_byte}

-- What the receiver reports: a byte by `rx_valid`, a framing error by `rx_err`.
pub data Report : Type 0 where
  byte : ℕ → Report
  framing_error : Report

abbrev pub report : Outputs → List Report → List Report
report o rest =
    if o.rx_valid then byte o.rx_data ∷ rest else if o.rx_err then framing_error ∷ rest else rest

unfoldable pub all_reports : State → List Bool → List Report
all_reports s [] = []
all_reports s (b ∷ bs) = report (outputs s) (all_reports (step 12 s b) bs)

-- What can happen on the line: a cycle of rest; a pulse of some cycles, too short for a start bit;
-- a frame; a frame whose stop bit is low, after which the line stays low for some cycles.
pub data Happening : Type 0 where
  rest_cycle : Happening
  pulse : ℕ → Happening
  good_frame : ℕ → Happening
  broken_frame : ℕ → ℕ → Happening

abbrev pub IsHappening : Happening → Type 0
IsHappening rest_cycle = Unit
IsHappening (pulse g) = g < 7
IsHappening (good_frame n) = n < 256
IsHappening (broken_frame n k) = n < 256

abbrev pub AllHappenings : List Happening → Type 0
AllHappenings [] = Unit
AllHappenings (h ∷ hs) = IsHappening h × AllHappenings hs

-- The levels of the line.
abbrev pub wave : List Happening → List Bool
wave [] = []
wave (rest_cycle ∷ hs) = true ∷ wave hs
wave (pulse g ∷ hs) = replicate g false ++ replicate (9 - g) true ++ wave hs
wave (good_frame n ∷ hs) = levels 12 (frame n) (wave hs)
wave (broken_frame n k ∷ hs) =
    levels 12 (false ∷ bits 8 n (false ∷ [])) (replicate k false ++ true ∷ true ∷ true ∷ wave hs)

-- What should be reported.
abbrev pub expected : List Happening → List Report
expected [] = []
expected (rest_cycle ∷ hs) = expected hs
expected (pulse g ∷ hs) = expected hs
expected (good_frame n ∷ hs) = byte n ∷ expected hs
expected (broken_frame n k ∷ hs) = framing_error ∷ expected hs

-- The receiver in IDLE while the line is low.
abbrev held_low : ℕ → State
held_low x = record {
  fsm = idle;
  rx_sync0 = false;
  rx_sync1 = false;
  rx_prev = false;
  bit_timer = 0;
  bit_count = 8;
  shift_reg = x;
}

module _ (t c x : ℕ) (b0 b1 b2 b3 b4 b5 b6 b7 : Bool) (rest : List Bool) where
  good_samples :
      let y = eighth x b0 b1 b2 b3 b4 b5 b6 b7 in
      all_reports
        (listening t c x)
        (levels 12 (false ∷ b0 ∷ b1 ∷ b2 ∷ b3 ∷ b4 ∷ b5 ∷ b6 ∷ b7 ∷ true ∷ []) rest)
      ≡ byte y ∷ all_reports (listening 0 8 y) rest
  unfolding all_reports outputs step
  good_samples = refl

  broken_samples :
      let y = eighth x b0 b1 b2 b3 b4 b5 b6 b7 in
      all_reports
        (listening t c x)
        (levels 12 (false ∷ b0 ∷ b1 ∷ b2 ∷ b3 ∷ b4 ∷ b5 ∷ b6 ∷ b7 ∷ false ∷ []) rest)
      ≡ framing_error ∷ all_reports (held_low y) rest
  unfolding all_reports outputs step
  broken_samples = refl

stays_low :
    (x k : ℕ) (rest : List Bool)
    → all_reports (held_low x) (replicate k false ++ rest) ≡ all_reports (held_low x) rest
unfolding all_reports outputs step
stays_low x zero rest = refl
stays_low x (suc k) rest = stays_low x k rest

recovers :
    (x : ℕ) (rest : List Bool)
    → all_reports (held_low x) (true ∷ true ∷ true ∷ rest) ≡ all_reports (listening 0 8 x) rest
unfolding all_reports outputs step
recovers x rest = refl

rests_on :
    (t c x : ℕ) (rest : List Bool)
    → all_reports (listening t c x) (true ∷ rest) ≡ all_reports (listening t c x) rest
unfolding all_reports outputs step
rests_on t c x rest = refl

-- A pulse of up to six cycles is over when the start bit is looked at in its middle.
ignores :
    (g t c x : ℕ) (rest : List Bool)
    → g < 7
    → (u : ℕ) × (all_reports (listening t c x) (replicate g false ++ replicate (9 - g) true ++ rest)
        ≡ all_reports (listening u c x) rest)
unfolding all_reports outputs step
ignores zero t c x rest h = (t, refl)
ignores (suc zero) t c x rest h = (0, refl)
ignores (suc (suc zero)) t c x rest h = (0, refl)
ignores (suc (suc (suc zero))) t c x rest h = (0, refl)
ignores (suc (suc (suc (suc zero)))) t c x rest h = (0, refl)
ignores (suc (suc (suc (suc (suc zero))))) t c x rest h = (0, refl)
ignores (suc (suc (suc (suc (suc (suc zero)))))) t c x rest h = (0, refl)
ignores (suc (suc (suc (suc (suc (suc (suc g))))))) t c x rest h = absurd (omega arith)

hears_frame :
    (t c x n : ℕ) (rest : List Bool)
    → x < 256
    → n < 256
    → all_reports (listening t c x) (levels 12 (frame n) rest)
      ≡ byte n ∷ all_reports (listening 0 8 n) rest
hears_frame t c x n rest hx hn =
    good_samples t c x (bit_at 0 n) (bit_at 0 (n / 2)) (bit_at 0 (n / 2 / 2))
      (bit_at 0 (n / 2 / 2 / 2)) (bit_at 0 (n / 2 / 2 / 2 / 2)) (bit_at 0 (n / 2 / 2 / 2 / 2 / 2))
      (bit_at 0 (n / 2 / 2 / 2 / 2 / 2 / 2)) (bit_at 0 (n / 2 / 2 / 2 / 2 / 2 / 2 / 2)) rest
    ∙ ap (λ y. byte y ∷ all_reports (listening 0 8 y) rest) (sampled_byte x n hx hn)

hears_broken :
    (t c x n k : ℕ) (rest : List Bool)
    → x < 256
    → n < 256
    → all_reports
        (listening t c x)
        (levels 12 (false ∷ bits 8 n (false ∷ [])) (replicate k false ++ true ∷ true ∷ true ∷ rest))
      ≡ framing_error ∷ all_reports (listening 0 8 n) rest
hears_broken t c x n k rest hx hn =
    let late = replicate k false ++ true ∷ true ∷ true ∷ rest in
    broken_samples t c x (bit_at 0 n) (bit_at 0 (n / 2)) (bit_at 0 (n / 2 / 2))
      (bit_at 0 (n / 2 / 2 / 2)) (bit_at 0 (n / 2 / 2 / 2 / 2)) (bit_at 0 (n / 2 / 2 / 2 / 2 / 2))
      (bit_at 0 (n / 2 / 2 / 2 / 2 / 2 / 2)) (bit_at 0 (n / 2 / 2 / 2 / 2 / 2 / 2 / 2)) late
    ∙ ap (λ y. framing_error ∷ all_reports (held_low y) late) (sampled_byte x n hx hn)
    ∙ ap (λ l. framing_error ∷ l) (stays_low n k (true ∷ true ∷ true ∷ rest) ∙ recovers n rest)

-- A listening receiver at divisor 12 reports of a line the byte of each frame and a framing error
-- for each frame whose stop bit is low, in their order, and nothing else: no byte for a broken
-- frame, and nothing for pulses of up to six cycles. After each of them, whenever the line is back
-- at rest, it hears the next.
pub reports_all :
    (t c x : ℕ) (hs : List Happening)
    → x < 256
    → AllHappenings hs
    → all_reports (listening t c x) (wave hs) ≡ expected hs
unfolding all_reports
reports_all t c x [] hx ok = refl
reports_all t c x (rest_cycle ∷ hs) hx ok = rests_on t c x (wave hs) ∙ reports_all t c x hs hx ok.1
reports_all t c x (pulse g ∷ hs) hx ok =
    let (u, over) = ignores g t c x (wave hs) ok.0 in over ∙ reports_all u c x hs hx ok.1
reports_all t c x (good_frame n ∷ hs) hx ok =
    hears_frame t c x n (wave hs) hx ok.0 ∙ ap (λ l. byte n ∷ l) (reports_all 0 8 n hs ok.0 ok.1)
reports_all t c x (broken_frame n k ∷ hs) hx ok =
    hears_broken t c x n k (wave hs) hx ok.0
    ∙ ap (λ l. framing_error ∷ l) (reports_all 0 8 n hs ok.0 ok.1)
