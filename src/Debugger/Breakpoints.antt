-- ===== src/Debugger/Breakpoints.antt =====
-- The table of breakpoints: tools/debugger/src/breakpoint.c.
pub mod Set
use risc_v_virtual_machine.Common.{
  ℕ, zero, suc, ◌+◌, Bool, true, false, ◌==◌, if◌then◌else◌, update, u8,
}

abbrev pub max_breakpoints : ℕ
max_breakpoints = 64

pub record Breakpoints : Type 0 where
  pub table : ℕ → ℕ
  pub count : ℕ

abbrev pub no_breakpoints : Breakpoints
no_breakpoints = record { table = λ _. 0; count = 0 }

-- C makes no test of the count: the write is outside the table from 64 on.
unfoldable pub add_breakpoint : Breakpoints → ℕ → Breakpoints
add_breakpoint b addr = record { table = update b.table b.count addr; count = u8 (b.count + 1) }

-- The loop over the entries below `n`. C goes upwards; the order does not matter to the result.
unfoldable pub is_among : (ℕ → ℕ) → ℕ → ℕ → Bool
is_among table zero pc = false
is_among table (suc n) pc = if is_among table n pc then true else table n == pc

unfoldable pub is_breakpoint : Breakpoints → ℕ → Bool
unfolding is_among
is_breakpoint b pc = is_among b.table b.count pc
