-- ===== src/UartReceiver/Samples.antt =====
-- uart_rx.py at its default divisor.
use cdcl_sat_solver.Base.{
  ℕ, ◌+◌, ◌*◌, ◌/◌, ◌<◌, ◌≡◌, refl, ap, ◌∙◌, Bool, true, false, if◌then◌else◌, bit_at, List, [],
  ◌∷◌, ◌++◌, replicate, arith, bit, bit-lt-two, ◌%◌,
}
use cdcl_sat_solver.UartTransmitter.Frame.{frame}
use cdcl_sat_solver.UartReceiver.{State, idle, outputs, step}

-- The bytes that are reported, and what is left at the end.
unfoldable pub run : ℕ → State → List Bool → State
run divisor s [] = s
run divisor s (b ∷ bs) = run divisor (step divisor s b) bs

unfoldable pub received : ℕ → State → List Bool → List ℕ
received divisor s [] = []
received divisor s (b ∷ bs) =
    let rest = received divisor (step divisor s b) bs in
    if (outputs s).rx_valid then (outputs s).rx_data ∷ rest else rest

-- The level of the line, each bit for d cycles, before the levels that follow.
abbrev pub levels : ℕ → List Bool → List Bool → List Bool
levels d [] rest = rest
levels d (b ∷ bs) rest = replicate d b ++ levels d bs rest

-- The receiver between two frames, while the line is idle.
abbrev pub listening : ℕ → ℕ → ℕ → State
listening t c x = record {
  fsm = idle;
  rx_sync0 = true;
  rx_sync1 = true;
  rx_prev = true;
  bit_timer = t;
  bit_count = c;
  shift_reg = x;
}

-- `Cat(shift_reg[1:], b)`
abbrev pub shift_in : Bool → ℕ → ℕ
shift_in b x = x / 2 + bit b * 128

abbrev pub eighth : ℕ → Bool → Bool → Bool → Bool → Bool → Bool → Bool → Bool → ℕ
eighth x b0 b1 b2 b3 b4 b5 b6 b7 = shift_in b7 (
    shift_in b6
      (shift_in b5 (shift_in b4 (shift_in b3 (shift_in b2 (shift_in b1 (shift_in b0 x)))))))

-- A frame with eight data bits, of twelve cycles each: they end up in the shift register.
samples :
    (t c x : ℕ) (b0 b1 b2 b3 b4 b5 b6 b7 : Bool) (rest : List Bool)
    → let y = eighth x b0 b1 b2 b3 b4 b5 b6 b7 in
      received 12
        (listening t c x)
        (levels 12 (false ∷ b0 ∷ b1 ∷ b2 ∷ b3 ∷ b4 ∷ b5 ∷ b6 ∷ b7 ∷ true ∷ []) rest)
      ≡ y ∷ received 12 (listening 0 8 y) rest
unfolding received outputs step
samples t c x b0 b1 b2 b3 b4 b5 b6 b7 rest = refl

eight_bits :
    (x b0 b1 b2 b3 b4 b5 b6 b7 : ℕ)
    → x < 256
    → b0 < 2
    → b1 < 2
    → b2 < 2
    → b3 < 2
    → b4 < 2
    → b5 < 2
    → b6 < 2
    → b7 < 2
    → (((((((((x / 2 + b0 * 128) / 2 + b1 * 128) / 2 + b2 * 128) / 2 + b3 * 128) / 2 + b4 * 128) / 2
                + b5 * 128)
              / 2
            + b6 * 128)
          / 2)
        + b7 * 128)
      ≡ b0 + 2 * (b1 + 2 * (b2 + 2 * (b3 + 2 * (b4 + 2 * (b5 + 2 * (b6 + 2 * b7))))))
eight_bits x b0 b1 b2 b3 b4 b5 b6 b7 hx h0 h1 h2 h3 h4 h5 h6 h7 = omega arith

parity : (x : ℕ) → bit (bit_at 0 x) ≡ x % 2
parity x = ground arith

byte_of_bits :
    (x : ℕ)
    → x < 256
    → x % 2
        + 2
          * (x / 2 % 2
              + 2
                * (x / 2 / 2 % 2
                    + 2
                      * (x / 2 / 2 / 2 % 2
                          + 2
                            * (x / 2 / 2 / 2 / 2 % 2
                                + 2
                                  * (x / 2 / 2 / 2 / 2 / 2 % 2
                                      + 2
                                        * (x / 2 / 2 / 2 / 2 / 2 / 2 % 2
                                            + 2 * (x / 2 / 2 / 2 / 2 / 2 / 2 / 2 % 2)))))))
      ≡ x
byte_of_bits x h = omega arith

pub sampled_byte :
    (x n : ℕ)
    → x < 256
    → n < 256
    → eighth x
        (bit_at 0 n)
        (bit_at 0 (n / 2))
        (bit_at 0 (n / 2 / 2))
        (bit_at 0 (n / 2 / 2 / 2))
        (bit_at 0 (n / 2 / 2 / 2 / 2))
        (bit_at 0 (n / 2 / 2 / 2 / 2 / 2))
        (bit_at 0 (n / 2 / 2 / 2 / 2 / 2 / 2))
        (bit_at 0 (n / 2 / 2 / 2 / 2 / 2 / 2 / 2))
      ≡ n
sampled_byte x n hx hn =
    eight_bits x (bit (bit_at 0 n)) (bit (bit_at 0 (n / 2))) (bit (bit_at 0 (n / 2 / 2)))
      (bit (bit_at 0 (n / 2 / 2 / 2))) (bit (bit_at 0 (n / 2 / 2 / 2 / 2)))
      (bit (bit_at 0 (n / 2 / 2 / 2 / 2 / 2))) (bit (bit_at 0 (n / 2 / 2 / 2 / 2 / 2 / 2)))
      (bit (bit_at 0 (n / 2 / 2 / 2 / 2 / 2 / 2 / 2))) hx (bit-lt-two (bit_at 0 n))
      (bit-lt-two (bit_at 0 (n / 2))) (bit-lt-two (bit_at 0 (n / 2 / 2)))
      (bit-lt-two (bit_at 0 (n / 2 / 2 / 2))) (bit-lt-two (bit_at 0 (n / 2 / 2 / 2 / 2)))
      (bit-lt-two (bit_at 0 (n / 2 / 2 / 2 / 2 / 2)))
      (bit-lt-two (bit_at 0 (n / 2 / 2 / 2 / 2 / 2 / 2)))
      (bit-lt-two (bit_at 0 (n / 2 / 2 / 2 / 2 / 2 / 2 / 2)))
    ∙ rw
        (
          parity n,
          parity (n / 2),
          parity (n / 2 / 2),
          parity (n / 2 / 2 / 2),
          parity (n / 2 / 2 / 2 / 2),
          parity (n / 2 / 2 / 2 / 2 / 2),
          parity (n / 2 / 2 / 2 / 2 / 2 / 2),
          parity (n / 2 / 2 / 2 / 2 / 2 / 2 / 2),
        )
        (byte_of_bits n hn)

-- The frame of a byte is heard as that byte, in whatever state the frame before it was left.
pub hears :
    (t c x n : ℕ) (rest : List Bool)
    → x < 256
    → n < 256
    → received 12 (listening t c x) (levels 12 (frame n) rest)
      ≡ n ∷ received 12 (listening 0 8 n) rest
hears t c x n rest hx hn =
    samples t c x (bit_at 0 n) (bit_at 0 (n / 2)) (bit_at 0 (n / 2 / 2)) (bit_at 0 (n / 2 / 2 / 2))
      (bit_at 0 (n / 2 / 2 / 2 / 2)) (bit_at 0 (n / 2 / 2 / 2 / 2 / 2))
      (bit_at 0 (n / 2 / 2 / 2 / 2 / 2 / 2)) (bit_at 0 (n / 2 / 2 / 2 / 2 / 2 / 2 / 2)) rest
    ∙ ap (λ y. y ∷ received 12 (listening 0 8 y) rest) (sampled_byte x n hx hn)

pub hears_nothing :
    (t c x : ℕ) (rest : List Bool)
    → received 12 (listening t c x) (true ∷ rest) ≡ received 12 (listening t c x) rest
unfolding received outputs step
hears_nothing t c x rest = refl
