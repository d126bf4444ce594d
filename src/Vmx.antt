-- ===== src/Vmx.antt =====
-- The start of VMX operation: service-api/service-cpp/src/virtualization/intel_vmx/core/vmx_init.asm. The privileged
-- instructions and `vmcs_setup` of vmcs_config.asm are parameters, over a type `M` of machine states.
pub mod Start
pub mod Vmcs
pub mod Whole
pub mod Exit
pub mod Boot
pub mod Service
use kernova_tee.Prelude.{
  ℕ, ◌%◌, ◌^◌, Option, Bool, true, false, not, ltb, ◌==◌, if◌then◌else◌, bit_and, bit_or, u32,
  Bytes, store, zeros, fill,
}

pub record Instructions (M : Type 0) : Type 0 where
  pub read_cr4 : M → ℕ
  pub write_cr4 : ℕ → M → M
  -- `eax` and `edx`
  pub rdmsr : ℕ → M → ℕ × ℕ
  -- the zero flag, and what it leaves of its region, double word by double word
  pub vmxon : Bytes → M → Bool × Bytes × M
  pub vmxoff : M → M
  -- a VMLAUNCH and a VMRESUME that come back
  pub vmlaunch : M → M
  pub vmresume : M → M
  -- the type and the address of the descriptor
  pub invept : ℕ → ℕ → M → M
  -- what a field holds, if the instruction succeeds
  pub vmread : ℕ → M → Option ℕ × M
  -- `eax`
  pub vmcs_setup : M → ℕ × M

-- The data section, with the region in double words, and the machine.
pub record VmxState (M : Type 0) : Type 0 where
  pub machine : M
  pub vmxon_region : Bytes
  pub vmxon_region_ptr : ℕ
  pub host_stack_ptr : ℕ

abbrev pub cr4_vmxe : ℕ
cr4_vmxe = 0x2000

abbrev pub ia32_vmx_basic : ℕ
ia32_vmx_basic = 0x480

-- The codes -1 to -4, as `mov eax` leaves them in `rax`.
abbrev pub init_failed : ℕ
init_failed = 0xffff_ffff

abbrev pub alloc_failed : ℕ
alloc_failed = 0xffff_fffe

abbrev pub vmxon_failed : ℕ
vmxon_failed = 0xffff_fffd

abbrev pub vmcs_setup_failed : ℕ
vmcs_setup_failed = 0xffff_fffc

-- The static region stands at `address`.
module _ {M : Type 0} (cpu : Instructions M) (address : ℕ) where
  open cpu use {
    read_cr4, write_cr4, rdmsr, vmxon, vmxoff, vmlaunch, vmresume, invept, vmread, vmcs_setup,
  }

  unfoldable pub enable_cr4_vmx : M → ℕ × M
  enable_cr4_vmx m =
      let m' = write_cr4 (bit_or (read_cr4 m) cr4_vmxe) m in
      if not (bit_and (read_cr4 m) cr4_vmxe == 0)
      then (1, m)
      else if not (bit_and (read_cr4 m') cr4_vmxe == 0)
      then (1, m')
      else (0, m')

  abbrev pub alloc_vmx_region : ℕ
  alloc_vmx_region = address

  unfoldable pub init_vmx_region : VmxState M → ℕ × VmxState M
  init_vmx_region s =
      let (eax, edx) = rdmsr ia32_vmx_basic s.machine in
      let cleared = fill s.vmxon_region 0 1024 in
      let written = store cleared 0 (u32 eax) in
      (1, record s { vmxon_region = store written 0 (bit_and (written 0) 0x7fff_ffff) })

  -- On the region at `vmxon_region_ptr`.
  unfoldable pub do_vmxon : VmxState M → ℕ × VmxState M
  do_vmxon s =
      let (zf, region, m) = vmxon s.vmxon_region s.machine in
      let s' : VmxState M = record s { vmxon_region = region; machine = m } in
      if not (bit_and s.vmxon_region_ptr 0xfff == 0)
      then (0, s)
      else if zf
      then (0, s')
      else if bit_and (region 0) (2 ^ 31) == 0
      then (0, s')
      else (1, s')

  unfoldable pub do_vmxoff : VmxState M → ℕ × VmxState M
  do_vmxoff s = (1, record s { machine = vmxoff s.machine })

  -- The rest of `vmx_init`: from step 5, from step 4 and from step 3 on.
  set_up : VmxState M → ℕ × VmxState M
  unfolding do_vmxoff
  set_up s =
      let (eax, m) = vmcs_setup s.machine in
      let s' : VmxState M = record s { machine = m } in
      if eax == 0 then (vmcs_setup_failed, (do_vmxoff s').1) else (0, s')

  switch_on : VmxState M → ℕ × VmxState M
  unfolding set_up
  switch_on s = let (done, s') = do_vmxon s in if done == 0 then (vmxon_failed, s') else set_up s'

  with_region : VmxState M → ℕ × VmxState M
  unfolding init_vmx_region switch_on
  with_region s =
      let (done, s') = init_vmx_region s in if done == 0 then (init_failed, s') else switch_on s'

  unfoldable pub vmx_init : VmxState M → ℕ × VmxState M
  unfolding enable_cr4_vmx with_region
  vmx_init s =
      let (done, m) = enable_cr4_vmx s.machine in
      let enabled : VmxState M = record s { machine = m } in
      if done == 0
      then (init_failed, enabled)
      else if alloc_vmx_region == 0
      then (alloc_failed, enabled)
      else with_region (record enabled { vmxon_region_ptr = alloc_vmx_region })

  -- `vmxon`, with `vmxon_region_ptr` in `rdi`. The result of `enable_cr4_vmx` is not tested.
  unfoldable pub vmxon_wrapper : VmxState M → ℕ × VmxState M
  vmxon_wrapper s = let (done, m) = enable_cr4_vmx s.machine in do_vmxon (record s { machine = m })

  unfoldable pub vmxoff_wrapper : VmxState M → VmxState M
  unfolding do_vmxoff
  vmxoff_wrapper s = (do_vmxoff s).1

  -- With `rsp` in hand.
  unfoldable pub vmx_launch : ℕ → VmxState M → ℕ × VmxState M
  vmx_launch rsp s = (0xffff_ffff, record s { host_stack_ptr = rsp; machine = vmlaunch s.machine })

  unfoldable pub vmx_resume : ℕ → VmxState M → ℕ × VmxState M
  vmx_resume rsp s = (0xffff_ffff, record s { host_stack_ptr = rsp; machine = vmresume s.machine })

  -- With `rdi` and `rsi` in hand. `rax` is left as RDMSR leaves it.
  unfoldable pub vmx_invept : ℕ → ℕ → VmxState M → ℕ × VmxState M
  vmx_invept rdi rsi s =
      let (eax, edx) = rdmsr 0x482 s.machine in
      (u32 eax, record s { machine = invept rdi rsi s.machine })

  -- `vmread rbx, rax` puts the field whose encoding is in `rax` into `rbx`, which is popped. The result
  -- is `rax`.
  unfoldable pub check_vmx_errors : ℕ → VmxState M → ℕ × VmxState M
  check_vmx_errors rax s = let (value, m) = vmread rax s.machine in (rax, record s { machine = m })
