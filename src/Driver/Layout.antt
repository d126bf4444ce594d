-- ===== src/Driver/Layout.antt =====
-- The offsets in a VMCB that service-kernel/linux/amd_svm/amd_svm.c names, and the intercept of HLT.
use kernova_tee.Prelude.{ℕ}

abbrev pub intercept : ℕ
intercept = 0x00c

abbrev pub asid : ℕ
asid = 0x058

abbrev pub tlb_control : ℕ
tlb_control = 0x05c

abbrev pub exit_code : ℕ
exit_code = 0x070

abbrev pub exit_info1 : ℕ
exit_info1 = 0x078

abbrev pub exit_info2 : ℕ
exit_info2 = 0x080

abbrev pub n_rip : ℕ
n_rip = 0x0c8

abbrev pub es : ℕ
es = 0x400

abbrev pub cs : ℕ
cs = 0x410

abbrev pub ss : ℕ
ss = 0x420

abbrev pub ds : ℕ
ds = 0x430

abbrev pub fs : ℕ
fs = 0x440

abbrev pub gs : ℕ
gs = 0x450

abbrev pub gdtr : ℕ
gdtr = 0x460

abbrev pub ldtr : ℕ
ldtr = 0x470

abbrev pub idtr : ℕ
idtr = 0x480

abbrev pub tr : ℕ
tr = 0x490

abbrev pub efer : ℕ
efer = 0x4d0

abbrev pub cr4 : ℕ
cr4 = 0x548

abbrev pub cr3 : ℕ
cr3 = 0x550

abbrev pub cr0 : ℕ
cr0 = 0x558

abbrev pub dr7 : ℕ
dr7 = 0x560

abbrev pub dr6 : ℕ
dr6 = 0x568

abbrev pub rflags : ℕ
rflags = 0x570

abbrev pub rip : ℕ
rip = 0x578

abbrev pub rsp : ℕ
rsp = 0x5d8

abbrev pub rax : ℕ
rax = 0x5f8

abbrev pub intercept_hlt : ℕ
intercept_hlt = 24
