-- ===== src/Cpu/Csr/Names.antt =====
-- The addresses of include/cpu/csrs/csr_def.h.
use risc_v_virtual_machine.Common.{ℕ}

abbrev pub csr_mstatus : ℕ
csr_mstatus = 0x300

abbrev pub csr_misa : ℕ
csr_misa = 0x301

abbrev pub csr_medeleg : ℕ
csr_medeleg = 0x302

abbrev pub csr_mideleg : ℕ
csr_mideleg = 0x303

abbrev pub csr_mie : ℕ
csr_mie = 0x304

abbrev pub csr_mtvec : ℕ
csr_mtvec = 0x305

abbrev pub csr_mcounteren : ℕ
csr_mcounteren = 0x306

abbrev pub csr_mscratch : ℕ
csr_mscratch = 0x340

abbrev pub csr_mepc : ℕ
csr_mepc = 0x341

abbrev pub csr_mcause : ℕ
csr_mcause = 0x342

abbrev pub csr_mtval : ℕ
csr_mtval = 0x343

abbrev pub csr_mip : ℕ
csr_mip = 0x344

abbrev pub csr_mcycle : ℕ
csr_mcycle = 0xB00

abbrev pub csr_minstret : ℕ
csr_minstret = 0xB02

abbrev pub csr_mvendorid : ℕ
csr_mvendorid = 0xF11

abbrev pub csr_marchid : ℕ
csr_marchid = 0xF12

abbrev pub csr_mimpid : ℕ
csr_mimpid = 0xF13

abbrev pub csr_mhartid : ℕ
csr_mhartid = 0xF14

abbrev pub csr_sstatus : ℕ
csr_sstatus = 0x100

abbrev pub csr_sie : ℕ
csr_sie = 0x104

abbrev pub csr_stvec : ℕ
csr_stvec = 0x105

abbrev pub csr_scounteren : ℕ
csr_scounteren = 0x106

abbrev pub csr_sscratch : ℕ
csr_sscratch = 0x140

abbrev pub csr_sepc : ℕ
csr_sepc = 0x141

abbrev pub csr_scause : ℕ
csr_scause = 0x142

abbrev pub csr_stval : ℕ
csr_stval = 0x143

abbrev pub csr_sip : ℕ
csr_sip = 0x144

abbrev pub csr_satp : ℕ
csr_satp = 0x180

abbrev pub csr_cycle : ℕ
csr_cycle = 0xC00

abbrev pub csr_time : ℕ
csr_time = 0xC01

abbrev pub csr_instret : ℕ
csr_instret = 0xC02
