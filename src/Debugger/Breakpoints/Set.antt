-- ===== src/Debugger/Breakpoints/Set.antt =====
-- The table of breakpoints as the set of its addresses: tools/debugger/src/breakpoint.c.
use mathlib.Core.List.{Mem, not-mem-nil, mem-cons, mem-cons_of_mem}
use mathlib.Core.Logic.Or
use mathlib.Core.Bool.{Bool-set, false≢true}
use risc_v_virtual_machine.Common.{
  ℕ, zero, suc, ◌+◌, ◌≤◌, ◌<◌, List, [], ◌∷◌, ◌≡◌, refl, ◌∙◌, sym, ap, ◌↔◌, arith, ◌==◌, Bool, true,
  false, if◌then◌else◌, ==_refl, ==_iff, update, u8, length,
}
use risc_v_virtual_machine.Debugger.Breakpoints.{
  Breakpoints, max_breakpoints, no_breakpoints, add_breakpoint, is_among, is_breakpoint,
}

is_among-update :
    (table : ℕ → ℕ) (i addr n pc : ℕ)
    → n ≤ i
    → is_among (update table i addr) n pc ≡ is_among table n pc
unfolding is_among
is_among-update table i addr zero pc h = refl
is_among-update table i addr (suc n) pc h =
    rw (is_among-update table i addr n pc (omega arith)) (ground (arith, h))

-- A breakpoint added to a table with room is found from then on, and so are those of before and no
-- other.
is_breakpoint-add_breakpoint :
    (b : Breakpoints) (addr pc : ℕ)
    → b.count < max_breakpoints
    → is_breakpoint (add_breakpoint b addr) pc ≡ (if is_breakpoint b pc then true else addr == pc)
unfolding is_breakpoint add_breakpoint is_among
is_breakpoint-add_breakpoint b addr pc h =
    let next : u8 (b.count + 1) ≡ suc b.count = ground (arith, h) in
    ap (λ n. is_among (update b.table b.count addr) n pc) next
    ∙ rw (is_among-update b.table b.count addr b.count pc (omega arith)) (rw (==_refl b.count) refl)

-- The table after the addresses have been added, the last of the list first.
unfoldable pub add_breakpoints : List ℕ → Breakpoints
add_breakpoints [] = no_breakpoints
add_breakpoints (addr ∷ addrs) = add_breakpoint (add_breakpoints addrs) addr

count-add_breakpoints :
    (addrs : List ℕ) → length addrs ≤ max_breakpoints → (add_breakpoints addrs).count ≡ length addrs
unfolding add_breakpoints add_breakpoint
count-add_breakpoints [] h = refl
count-add_breakpoints (addr ∷ addrs) h =
    rw (count-add_breakpoints addrs (omega arith)) (ground (arith, h))

either :
    (x : Bool) (addr pc : ℕ) (addrs : List ℕ)
    → (x ≡ true) ↔ Mem pc addrs
    → ((if x then true else addr == pc) ≡ true) ↔ Mem pc (addr ∷ addrs)
either true addr pc addrs h = (λ e. mem-cons_of_mem addr (h.0 refl), λ m. refl)
either false addr pc addrs h = (
  λ e. mem-cons.1 (Or.inl (sym ((==_iff addr pc).0 e))),
  λ m.
      Or.elim (Bool-set (addr == pc) true) (mem-cons.0 m) (λ e. (==_iff addr pc).1 (sym e))
        (λ rest. absurd (false≢true (h.1 rest))),
)

-- After at most 64 additions to the empty table, the program counter is at a breakpoint if and only
-- if it is one of the addresses added.
pub is_breakpoint-add_breakpoints :
    (addrs : List ℕ) (pc : ℕ)
    → length addrs ≤ max_breakpoints
    → (is_breakpoint (add_breakpoints addrs) pc ≡ true) ↔ Mem pc addrs
unfolding add_breakpoints is_breakpoint is_among
is_breakpoint-add_breakpoints [] pc h = (λ e. absurd (false≢true e), λ m. absurd (not-mem-nil m))
is_breakpoint-add_breakpoints (addr ∷ addrs) pc h =
    let few : length addrs ≤ max_breakpoints = omega arith in
    let room : (add_breakpoints addrs).count < max_breakpoints =
      rw (count-add_breakpoints addrs few) h in
    rw (is_breakpoint-add_breakpoint (add_breakpoints addrs) addr pc room) (
      either (is_breakpoint (add_breakpoints addrs) pc) addr pc addrs
        (is_breakpoint-add_breakpoints addrs pc (omega arith)))
