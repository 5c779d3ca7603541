-- ===== src/Devices/Uart/Fifo.antt =====
-- The ring of received bytes as a queue.
use risc_v_virtual_machine.Common.{ℕ, zero, suc, ◌+◌, ◌%◌, ◌<◌, ◌≡◌}
use risc_v_virtual_machine.Common.{refl, arith, update, update_self, update_ne}
use risc_v_virtual_machine.Common.{List, [], ◌∷◌, ◌++◌}

-- The `n` cells of a ring of 16 from `tail` on, oldest first.
unfoldable pub queue : (ℕ → ℕ) → ℕ → ℕ → List ℕ
queue cells tail zero = []
queue cells tail (suc n) = cells tail ∷ queue cells ((tail + 1) % 16) n

-- A byte stored at the place after the last goes to the end.
pub queue-update :
    (f : ℕ → ℕ) (byte n tail head : ℕ)
    → tail < 16
    → n < 16
    → head ≡ (tail + n) % 16
    → queue (update f head byte) tail (suc n) ≡ queue f tail n ++ (byte ∷ [])
unfolding queue
queue-update f byte zero tail head t m e =
    let here : head ≡ tail = omega arith in rw (here, update_self f tail byte)
queue-update f byte (suc n) tail head t m e =
    rw
      (
        update_ne f head byte tail (omega arith),
        queue-update f byte n ((tail + 1) % 16) head (omega arith) (omega arith) (omega arith),
      )
      refl
