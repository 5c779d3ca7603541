-- ===== src/Examples/Traps.antt =====
-- Traps, returns, interrupts and the registers of the supervisor at concrete inputs.
use risc_v_virtual_machine.Common.{
  ◌∷◌, [], ◌+◌, ◌*◌, ◌^◌, ◌≡◌, refl, arith, inl, false, if◌then◌else◌, ◌==◌,
}
use risc_v_virtual_machine.Bits.{bit}
use risc_v_virtual_machine.Cpu.{Cpu}
use risc_v_virtual_machine.Cpu.Csr.Names
use risc_v_virtual_machine.Cpu.Csr.Handlers.{sie_read, sie_write, sip_write, sstatus_write}
use risc_v_virtual_machine.Cpu.Csr.Access.{
  is_supervisors, is_sstatus, supervisor_write_lem, sie_read-sie_write, sstatus_write_lem,
}
use risc_v_virtual_machine.Cpu.Trap.{raise_exception, raise_interrupt, exc_ecall_u_mode}
use risc_v_virtual_machine.Cpu.Interrupts.{cpu_check_interrupts}
use risc_v_virtual_machine.Cpu.Interrupts.Priority.{
  mei, msi, mti, sei, ssi, sti, takes, first, interrupted, cpu_check_interrupts-first,
}
use risc_v_virtual_machine.Cpu.Decode.{IType}
use risc_v_virtual_machine.Cpu.Exec.System.{mret, sret}
use risc_v_virtual_machine.Cpu.Return.{Resumes, is_delegated, lost_by_mret, lost_by_sret}
use risc_v_virtual_machine.Cpu.Return.RoundTrip.{return-raise_exception, return-raise_interrupt}
use risc_v_virtual_machine.Cpu.Return.Entry.{Handles, raise_exception-Handles}

-- A program in user mode: environment calls and the supervisor's timer interrupt are delegated,
-- and that interrupt and the machine's timer interrupt are pending and enabled.
abbrev user : Cpu
user = record {
  regs = λ r. r * 3;
  csrs = λ a.
      if a == Names.csr_medeleg
      then 2 ^ 8
      else if a == Names.csr_mideleg
      then 2 ^ 5
      else if a == Names.csr_mip
      then 2 ^ 5 + 2 ^ 7
      else if a == Names.csr_mie
      then 2 ^ 5 + 2 ^ 7
      else if a == Names.csr_mstatus
      then 2 ^ 1 + 2 ^ 3
      else if a == Names.csr_stvec
      then 0x80001000
      else 0;
  pc = 0x80002000;
  priviledge = 0;
  reservation = record { valid = false; phys_addr = 0; size = 0 };
  trap_taken = false;
  pc_written = false;
}

abbrev return : IType
return = record { rd = 0; funct3 = 0; rs1 = 0; opcode = 0x73; imm = 0x102; raw = 0x10200073 }

return-raise_exception_example :
    let delegated = is_delegated user Names.csr_medeleg exc_ecall_u_mode in
    let trapped = raise_exception user exc_ecall_u_mode 0 in
    Resumes user
      (if delegated then sret trapped return else mret trapped return)
      (if delegated then lost_by_sret else lost_by_mret)
return-raise_exception_example = return-raise_exception user return (inl refl) exc_ecall_u_mode 0

return-raise_interrupt_example :
    let delegated = is_delegated user Names.csr_mideleg 7 in
    let trapped = raise_interrupt user 7 in
    Resumes user
      (if delegated then sret trapped return else mret trapped return)
      (if delegated then lost_by_sret else lost_by_mret)
return-raise_interrupt_example = return-raise_interrupt user return (inl refl) 7

raise_exception-Handles_example :
    Handles user
      (raise_exception user exc_ecall_u_mode 0)
      (is_delegated user Names.csr_medeleg exc_ecall_u_mode)
      exc_ecall_u_mode
      0
raise_exception-Handles_example = raise_exception-Handles user exc_ecall_u_mode 0 (inl refl)

cpu_check_interrupts-first_example :
    cpu_check_interrupts user
    ≡ interrupted user (first (takes user) (mei ∷ msi ∷ mti ∷ sei ∷ ssi ∷ sti ∷ []))
cpu_check_interrupts-first_example = cpu_check_interrupts-first user

supervisor_write_example :
    (bit ((sie_write user 0).csrs Names.csr_mie) 5
      ≡ (if is_supervisors user 5 then bit 0 5 else bit (user.csrs Names.csr_mie) 5))
    × (bit ((sip_write user 0).csrs Names.csr_mip) 5
        ≡ (if is_supervisors user 5 then bit 0 5 else bit (user.csrs Names.csr_mip) 5))
supervisor_write_example = supervisor_write_lem user 0 5 (omega arith)

sie_read-sie_write_example :
    bit (sie_read (sie_write user 0xFFFF)) 5 ≡ (if is_supervisors user 5 then bit 0xFFFF 5 else 0)
sie_read-sie_write_example = sie_read-sie_write user 0xFFFF 5 (omega arith)

sstatus_write_example :
    bit ((sstatus_write user 0xFFFF).csrs Names.csr_mstatus) 11
    ≡ (if is_sstatus 11 then bit 0xFFFF 11 else bit (user.csrs Names.csr_mstatus) 11)
sstatus_write_example = sstatus_write_lem user 0xFFFF 11 (omega arith)
