-- ===== src/Debugger/Disassembler/Names.antt =====
-- The names of the debugger's tables against the instructions that the processor executes.
use Prim.Native.String.{String}
use risc_v_virtual_machine.Common.{
  ℕ, ◌<◌, List, [], ◌∷◌, ◌≡◌, ◌⊎◌, inl, inr, refl, sym, arith, Option, none, some, if◌then◌else◌,
}
use risc_v_virtual_machine.Common.Text.{codes}
use risc_v_virtual_machine.Bus.{Bus}
use risc_v_virtual_machine.Cpu.{Cpu, Machine, on_cpu}
use risc_v_virtual_machine.Cpu.Decode.{RType, IType, SType, BType}
use risc_v_virtual_machine.Cpu.Trap.{raise_exception, exc_illegal_instruction}
use risc_v_virtual_machine.Cpu.Exec.Load.{lb, lh, lw, ld, lbu, lhu, lwu, dispatch_load}
use risc_v_virtual_machine.Cpu.Exec.Store.{sb, sh, sw, sd, dispatch_store}
use risc_v_virtual_machine.Cpu.Exec.Branch.{beq, bne, blt, bge, bltu, bgeu, dispatch_branch}
use risc_v_virtual_machine.Cpu.Exec.Op.{
  add, sub, sll, slt, sltu, xor_op, srl, sra, or_op, and_op, dispatch_op,
}
use mathlib.Core.Path.{subst}
use risc_v_virtual_machine.Debugger.Text.{same_text}
use risc_v_virtual_machine.Debugger.Tables.{
  entry, load_mnemonics, store_mnemonics, branch_mnemonics, op_mnemonics,
}

-- What a list of names has for a name, or else the default.
unfoldable pub named : {A : Type 0} → List (List ℕ × A) → Option String → A → A
named [] name default = default
named (first ∷ rest) none default = default
named (first ∷ rest) (some name) default =
    let others = named rest (some name) default in
    if same_text (codes name) first.0 then first.1 else others

each_below_8 :
    (P : ℕ → Type 0) → P 0 → P 1 → P 2 → P 3 → P 4 → P 5 → P 6 → P 7 → (n : ℕ) → n < 8 → P n
each_below_8 P a b c d e f g h n k = elim (below_8 n k) [
  | inl p ↦ subst P (sym p) a
  | inr (inl p) ↦ subst P (sym p) b
  | inr (inr (inl p)) ↦ subst P (sym p) c
  | inr (inr (inr (inl p))) ↦ subst P (sym p) d
  | inr (inr (inr (inr (inl p)))) ↦ subst P (sym p) e
  | inr (inr (inr (inr (inr (inl p))))) ↦ subst P (sym p) f
  | inr (inr (inr (inr (inr (inr (inl p)))))) ↦ subst P (sym p) g
  | inr (inr (inr (inr (inr (inr (inr p)))))) ↦ subst P (sym p) h
]
  where
    below_8 :
        (n : ℕ)
        → n < 8
        → (n ≡ 0) ⊎ (n ≡ 1) ⊎ (n ≡ 2) ⊎ (n ≡ 3) ⊎ (n ≡ 4) ⊎ (n ≡ 5) ⊎ (n ≡ 6) ⊎ (n ≡ 7)
    below_8 n h = ground (arith, h)

-- The instructions by their names.
abbrev pub branches : List (List ℕ × (Cpu → BType → Cpu))
branches =
    (codes "beq", beq)
    ∷ (codes "bne", bne)
    ∷ (codes "blt", blt)
    ∷ (codes "bge", bge)
    ∷ (codes "bltu", bltu)
    ∷ (codes "bgeu", bgeu)
    ∷ []

abbrev pub register_operations : List (List ℕ × (Cpu → RType → Cpu))
register_operations =
    (codes "add", add)
    ∷ (codes "sll", sll)
    ∷ (codes "slt", slt)
    ∷ (codes "sltu", sltu)
    ∷ (codes "xor", xor_op)
    ∷ (codes "srl", srl)
    ∷ (codes "or", or_op)
    ∷ (codes "and", and_op)
    ∷ (codes "sub", sub)
    ∷ (codes "sra", sra)
    ∷ []

abbrev pub illegal_branch : Cpu → BType → Cpu
illegal_branch cpu i = raise_exception cpu exc_illegal_instruction i.raw

abbrev pub illegal_operation : Cpu → RType → Cpu
illegal_operation cpu i = raise_exception cpu exc_illegal_instruction i.raw

-- A branch is executed as the instruction that the debugger names, or is illegal if it names none.
dispatch_branch-named :
    (cpu : Cpu) (i : BType)
    → i.funct3 < 8
    → dispatch_branch cpu i ≡ named branches (entry branch_mnemonics i.funct3) illegal_branch cpu i
unfolding dispatch_branch named same_text
dispatch_branch-named cpu i h =
    each_below_8
      (λ n.
        let b = record i { funct3 = n } in
        dispatch_branch cpu b ≡ named branches (entry branch_mnemonics n) illegal_branch cpu b)
      refl refl refl refl refl refl refl refl i.funct3 h

-- A register instruction without the alternative bit is executed as the one that the debugger names.
dispatch_op-named :
    (cpu : Cpu) (i : RType)
    → i.funct3 < 8
    → i.funct7 ≡ 0
    → dispatch_op cpu i
      ≡ named register_operations (entry op_mnemonics i.funct3) illegal_operation cpu i
unfolding dispatch_op named same_text
dispatch_op-named cpu i h z =
    subst
      (λ k.
        dispatch_op cpu (record i { funct7 = k })
        ≡ named register_operations (entry op_mnemonics i.funct3) illegal_operation cpu
            (record i { funct7 = k }))
      (sym z)
      (each_below_8
        (λ n.
          let r = record i { funct3 = n; funct7 = 0 } in
          dispatch_op cpu r
          ≡ named register_operations (entry op_mnemonics n) illegal_operation cpu r)
        refl refl refl refl refl refl refl refl i.funct3 h)

module _ {S : Type 0} ⦃bus : Bus S⦄ where
  abbrev pub loads : List (List ℕ × (Machine S → IType → Machine S))
  loads =
      (codes "lb", lb)
      ∷ (codes "lh", lh)
      ∷ (codes "lw", lw)
      ∷ (codes "ld", ld)
      ∷ (codes "lbu", lbu)
      ∷ (codes "lhu", lhu)
      ∷ (codes "lwu", lwu)
      ∷ []

  abbrev pub stores : List (List ℕ × (Machine S → SType → Machine S))
  stores = (codes "sb", sb) ∷ (codes "sh", sh) ∷ (codes "sw", sw) ∷ (codes "sd", sd) ∷ []

  abbrev pub illegal_load : Machine S → IType → Machine S
  illegal_load m i = on_cpu (λ cpu. raise_exception cpu exc_illegal_instruction i.raw) m

  abbrev pub illegal_store : Machine S → SType → Machine S
  illegal_store m i = on_cpu (λ cpu. raise_exception cpu exc_illegal_instruction i.raw) m

  dispatch_load-named :
      (m : Machine S) (i : IType)
      → i.funct3 < 8
      → dispatch_load m i ≡ named loads (entry load_mnemonics i.funct3) illegal_load m i
  unfolding dispatch_load named same_text
  dispatch_load-named m i h =
      each_below_8
        (λ n.
          let j = record i { funct3 = n } in
          dispatch_load m j ≡ named loads (entry load_mnemonics n) illegal_load m j)
        refl refl refl refl refl refl refl refl i.funct3 h

  dispatch_store-named :
      (m : Machine S) (i : SType)
      → i.funct3 < 8
      → dispatch_store m i ≡ named stores (entry store_mnemonics i.funct3) illegal_store m i
  unfolding dispatch_store named same_text
  dispatch_store-named m i h =
      each_below_8
        (λ n.
          let j = record i { funct3 = n } in
          dispatch_store m j ≡ named stores (entry store_mnemonics n) illegal_store m j)
        refl refl refl refl refl refl refl refl i.funct3 h

  -- A load, a store and a branch is executed as the instruction that the debugger's table names for
  -- it, and is illegal if the table names none. So is a register instruction with funct7 0.
  pub dispatch-named :
      (m : Machine S) (i : IType) (s : SType) (b : BType) (r : RType)
      → i.funct3 < 8
      → s.funct3 < 8
      → b.funct3 < 8
      → r.funct3 < 8
      → r.funct7 ≡ 0
      → (dispatch_load m i ≡ named loads (entry load_mnemonics i.funct3) illegal_load m i)
        × (dispatch_store m s ≡ named stores (entry store_mnemonics s.funct3) illegal_store m s)
        × (dispatch_branch m.cpu b
            ≡ named branches (entry branch_mnemonics b.funct3) illegal_branch m.cpu b)
        × (dispatch_op m.cpu r
            ≡ named register_operations (entry op_mnemonics r.funct3) illegal_operation m.cpu r)
  dispatch-named m i s b r hi hs hb hr z = (
    dispatch_load-named m i hi,
    dispatch_store-named m s hs,
    dispatch_branch-named m.cpu b hb,
    dispatch_op-named m.cpu r hr z,
  )
