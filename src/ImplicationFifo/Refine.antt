-- ===== src/ImplicationFifo/Refine.antt =====
-- The circular buffer of implication_fifo.py behaves as the bounded queue of its entries.
use cdcl_sat_solver.Base.{
  ℕ, zero, suc, ◌+◌, ◌-◌, ◌<◌, ◌≡◌, ◌⊎◌, refl, sym, ap, ap₂, ◌∙◌, subst, Bool, true, false, not,
  ◌&&◌, ◌==◌, if◌then◌else◌, List, [], ◌∷◌, ◌++◌, length, arith,
}
use mathlib.Core.List.{append-nil}
use cdcl_sat_solver.Memory.{Cells, read, write, read-write_self, read-write_ne, read-write_disabled}
use cdcl_sat_solver.ImplicationFifo.{
  Entry, Inputs, State, Outputs, pack, unpack, next_ptr, outputs, step, do_push, do_pop,
}
use cdcl_sat_solver.ImplicationFifo.Entries.{IsEntry, unpack-pack}
use cdcl_sat_solver.ImplicationFifo.Inv.{IsValid, step-IsValid, run}
use cdcl_sat_solver.ImplicationFifo.Queue
use cdcl_sat_solver.ImplicationFifo.Queue.{Queue}

module _ (depth : ℕ) where
  -- The `n` entries from a place of the buffer on.
  abbrev pub window : Cells → ℕ → ℕ → Queue
  window m h zero = []
  window m h (suc n) = unpack (read depth m h) ∷ window m (next_ptr depth h) n

  abbrev pub contents : State → Queue
  contents s = window s.mem s.rd_ptr s.count

  length-window : (m : Cells) (h n : ℕ) → length (window m h n) ≡ n
  length-window m h zero = refl
  length-window m h (suc n) = ap suc (length-window m (next_ptr depth h) n)

  -- A write that is not enabled leaves a window alone.
  window-disabled : (m : Cells) (h n p w : ℕ) → window (write depth m false p w) h n ≡ window m h n
  window-disabled m h zero p w = refl
  window-disabled m h (suc n) p w =
      ap₂ ◌∷◌ (ap unpack (read-write_disabled depth m p w h))
        (window-disabled m (next_ptr depth h) n p w)

  -- A write just past a window extends it.
  window-write :
      (m : Cells) (h n p w : ℕ)
      → h < depth
      → n < depth
      → p < depth
      → ((p ≡ h + n) ⊎ (p + depth ≡ h + n))
      → window (write depth m true p w) h (suc n) ≡ window m h n ++ unpack w ∷ []
  window-write m h zero p w hh hn hp at =
      let e : h ≡ p = omega arith in
      ap (λ k. unpack k ∷ [])
        (subst (λ x. read depth (write depth m true p w) x ≡ w) (sym e)
          (read-write_self depth m p w hp))
  window-write m h (suc n) p w hh hn hp at =
      ap₂ ◌∷◌ (ap unpack (read-write_ne depth m true p w h (omega arith)))
        (window-write m (next_ptr depth h) n p w (ground arith) (omega arith) hp (ground arith))

  -- The window after an edge that pushes and pops, or not.
  window-step :
      (m : Cells) (h n p : ℕ) (e : Entry) (push pop : Bool)
      → h < depth
      → p < depth
      → ((p ≡ h + n) ⊎ (p + depth ≡ h + n))
      → IsEntry e
      → (push ≡ true → n < depth)
      → (pop ≡ true → 0 < n)
      → window
          (write depth m push p (pack e))
          (if pop then next_ptr depth h else h)
          (if push && not pop then n + 1 else if pop && not push then n - 1 else n)
        ≡ (if pop then Queue.rest (window m h n) else window m h n) ++ (if push then e ∷ [] else [])
  window-step m h n p e false false hh hp at fits room some_left =
      window-disabled m h n p (pack e) ∙ sym (append-nil (window m h n))
  window-step m h zero p e false true hh hp at fits room some_left =
      absurd (omega (arith, some_left refl))
  window-step m h (suc k) p e false true hh hp at fits room some_left =
      ap (window (write depth m false p (pack e)) (next_ptr depth h)) (omega arith)
      ∙ window-disabled m (next_ptr depth h) k p (pack e)
      ∙ sym (append-nil (window m (next_ptr depth h) k))
  window-step m h n p e true false hh hp at fits room some_left =
      ap (window (write depth m true p (pack e)) h) {y = suc n} (omega arith)
      ∙ window-write m h n p (pack e) hh (room refl) hp at
      ∙ ap (λ x. window m h n ++ x ∷ []) (unpack-pack fits)
  window-step m h zero p e true true hh hp at fits room some_left =
      absurd (omega (arith, some_left refl))
  window-step m h (suc k) p e true true hh hp at fits room some_left =
      ap Queue.rest (window-write m h (suc k) p (pack e) hh (room refl) hp at)
      ∙ ap (λ x. window m (next_ptr depth h) k ++ x ∷ []) (unpack-pack fits)

  -- Popping an empty window does nothing, as the code's test says.
  rest-window :
      (m : Cells) (h n : ℕ) (pop : Bool)
      → (if pop && not (n == 0) then Queue.rest (window m h n) else window m h n)
        ≡ (if pop then Queue.rest (window m h n) else window m h n)
  rest-window m h zero false = refl
  rest-window m h zero true = refl
  rest-window m h (suc n) false = refl
  rest-window m h (suc n) true = ground arith

  -- A clock edge takes a valid buffer to what the bounded queue of its entries becomes: a push
  -- appends unless the queue is full, a pop drops the oldest, and both can happen together.
  pub step_refines :
      (s : State) (i : Inputs)
      → IsValid depth s
      → IsEntry i.push
      → contents (step depth s i) ≡ Queue.step depth (contents s) i
  unfolding step Queue.step
  step_refines s i v fits =
      window-step s.mem s.rd_ptr s.count s.wr_ptr i.push (do_push depth s i) (do_pop depth s i)
        v.rd_in v.wr_in v.apart fits (ground arith) (ground arith)
      ∙ ap₂ ◌++◌ (rest-window s.mem s.rd_ptr s.count i.pop_ready) (
          ap (λ k. if i.push_valid && not (k == depth) then i.push ∷ [] else [])
            (sym (length-window s.mem s.rd_ptr s.count)))

  -- What the ports show of the queue.
  abbrev pub Shows : Queue → Outputs → Type 0
  Shows [] o = (o.pop_valid ≡ false) × (o.fifo_empty ≡ true) × (o.fifo_full ≡ (0 == depth))
  Shows (e ∷ q) o =
      (o.pop_valid ≡ true)
      × (o.pop ≡ e)
      × (o.fifo_empty ≡ false)
      × (o.fifo_full ≡ (length (e ∷ q) == depth))

  Shows-window :
      (m : Cells) (h w n : ℕ)
      → Shows (window m h n) (outputs depth (record { mem = m; wr_ptr = w; rd_ptr = h; count = n }))
  unfolding outputs
  Shows-window m h w zero = (refl, refl, refl)
  Shows-window m h w (suc n) = (
    ground arith,
    refl,
    ground arith,
    ap (λ k. suc k == depth) (sym (length-window m (next_ptr depth h) n)),
  )

  abbrev pub AllEntries : List Inputs → Type 0
  AllEntries [] = Unit
  AllEntries (i ∷ is) = IsEntry i.push × AllEntries is

  contents-run :
      (s : State) (is : List Inputs)
      → IsValid depth s
      → AllEntries is
      → contents (run depth s is) ≡ Queue.run depth (contents s) is
  unfolding run Queue.run
  contents-run s [] v fits = refl
  contents-run s (i ∷ is) v fits =
      contents-run (step depth s i) is (step-IsValid depth i v) fits.1
      ∙ ap (λ q. Queue.run depth q is) (step_refines s i v fits.0)

  -- After any sequence of clock edges a buffer that started valid shows, on its ports, the bounded
  -- queue that has gone through the same pushes and pops: whether it is empty or full, and its
  -- oldest implication.
  pub run_refines :
      (s : State) (is : List Inputs)
      → IsValid depth s
      → AllEntries is
      → Shows (Queue.run depth (contents s) is) (outputs depth (run depth s is))
  run_refines s is v fits =
      let t = run depth s is in
      subst (λ q. Shows q (outputs depth t)) (contents-run s is v fits)
        (Shows-window t.mem t.rd_ptr t.wr_ptr t.count)
