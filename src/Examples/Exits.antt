-- ===== src/Examples/Exits.antt =====
-- The theorems on the VMCS and on VM exits, at a processor whose machine is the fields of its VMCS.
use kernova_tee.Prelude.{
  length, ◌≤◌, ◌<◌, ℕ, ◌+◌, ◌%◌, ◌^◌, ◌≡◌, refl, true, false, some, [], ◌==◌, ◌&&◌, if◌then◌else◌,
  u32, u64, zeros, arith,
}
use kernova_tee.Trace.{new_engine, trace_init}
use kernova_tee.Trace.Blind.{set_up}
use kernova_tee.Trace.Buffer.{append_all, trace_init-Holds}
use kernova_tee.Vmx.Vmcs.{
  VmcsInstructions, VmcsState, EntryPoints, put_field, vmcs_setup, vmcs_region, host_stack_for_exit,
}
use kernova_tee.Vmx.Vmcs.Writes.{VmcsLaws, width, AllHold, has_row}
use kernova_tee.Vmx.Vmcs.Setup.{loaded, vmcs_setup_cases}
use kernova_tee.Vmx.Vmcs.Fields.{
  control_table, guest_table, host_table, all_rows, vmcs_setup-fields,
}
use kernova_tee.Vmx.Exit.{
  ExitInstructions, ExitState, GuestRegisters, saved, with_ax, vmexit_dispatch, intercept_cpuid,
  resume, vmexit_handler,
}
use kernova_tee.Vmx.Exit.Handler.{reads, vmexit_handler_lem}
use kernova_tee.Vmx.Exit.Record.{IsRecorded, intercepted, vmexit_dispatch-append}
use kernova_tee.Vmx.Exit.Frame.{slot, saved-slot}
use kernova_tee.Vmx.Exit.Identity.{identity_rows, intercept_cpuid-fields}
use kernova_tee.Examples.Machines.{intel_cpuid}

abbrev pub Fields : Type 0
Fields = ℕ → ℕ

abbrev pub plain_vmcs : VmcsInstructions Fields
plain_vmcs = record {
  vmclear = λ a m. (false, m);
  vmptrld = λ a m. (false, m);
  vmwrite = λ f v m. (false, λ g. if (g == f) && true then v % 2 ^ width f else m g);
  vmread = λ f m. (some (m f), m);
  rdmsr = λ a m. (0x16, 0);
  read_cr0 = λ m. 0x8000_0011;
  read_cr3 = λ m. 0x1000;
  read_cr4 = λ m. 0x2020;
}

abbrev plain_vmcs-VmcsLaws : VmcsLaws plain_vmcs (λ m. m)
plain_vmcs-VmcsLaws = record {
  supported = λ m f. true;
  vmwrite_fields = λ f v m g full. refl;
  vmwrite_supported = λ f v m g. refl;
  vmread_supported = λ f m g. refl;
  vmread_fields = λ f m g. refl;
  vmwrite_rdmsr = λ f v m a. refl;
  vmwrite_cr0 = λ f v m. refl;
  vmwrite_cr3 = λ f v m. refl;
  vmwrite_cr4 = λ f v m. refl;
}

abbrev pub entry : EntryPoints
entry = record { guest_entry_point = 0x40_0000; vmexit_handler = 0x41_0000 }

abbrev pub empty : VmcsState Fields
empty = record { machine = zeros; vmcs_region_ptr = 0; vmcs_launch_state_value = 0 }

vmcs_setup-fields_example :
    let m = (loaded plain_vmcs entry 0x1_0000 empty).1 in
    let now = (vmcs_setup plain_vmcs entry 0x1_0000 empty).1.machine in
    AllHold (λ f. true) now (control_table plain_vmcs entry 0x1_0000 m)
    × AllHold (λ f. true) now (guest_table plain_vmcs entry 0x1_0000 m)
    × AllHold (λ f. true) now (host_table plain_vmcs entry 0x1_0000 m)
    × ((g : ℕ) → has_row (all_rows plain_vmcs entry 0x1_0000 m) g ≡ false → now g ≡ m g)
vmcs_setup-fields_example =
    vmcs_setup-fields plain_vmcs (λ m. m) plain_vmcs-VmcsLaws entry 0x1_0000 empty
      (vmcs_setup_cases plain_vmcs entry 0x1_0000 empty (λ e. omega (arith, e))).0

abbrev guest : GuestRegisters
guest = record {
  rax = 0x1234_001c;
  rbx = 1;
  rcx = 0xc000_0082;
  rdx = 2;
  rsi = 3;
  rdi = 4;
  rbp = 5;
  r8 = 6;
  r9 = 7;
  r10 = 8;
  r11 = 9;
  r12 = 10;
  r13 = 11;
  r14 = 12;
  r15 = 13;
  ds = 0x10;
  es = 0x10;
  fs = 0;
  gs = 0;
}

-- The last push, and the first byte of `vmcs_region_ptr`.
saved-slot_example :
    let rsp = (vmcs_setup plain_vmcs entry 0x1_0000 empty).1.machine 0x6c1c in
    (vmcs_region 0x1_0000 ≤ slot rsp 18)
    × (slot rsp 18 + 8 ≤ host_stack_for_exit 0x1_0000)
    × ((j : ℕ) × (j < length (saved guest)) × (slot rsp j ≤ 0x1_1000) × (0x1_1000 < slot rsp j + 8))
saved-slot_example =
    saved-slot plain_vmcs (λ m. m) plain_vmcs-VmcsLaws entry 0x1_0000 empty guest 18 0x1_1000
      (vmcs_setup_cases plain_vmcs entry 0x1_0000 empty (λ e. omega (arith, e))).0 refl
      (omega arith) (omega arith) (omega arith) (omega arith)

abbrev exit_cpu : ExitInstructions Fields
exit_cpu = record {
  vmcs = plain_vmcs;
  cpuid = intel_cpuid;
  rdtsc = λ m. 99;
  vmresume = λ m. (false, m);
}

abbrev exiting : ExitState Fields
exiting = record { machine = zeros; engine = (trace_init new_engine).1 }

vmexit_handler_lem_example :
    let v = with_ax guest.rax 0x10 in
    vmexit_handler exit_cpu (λ a. zeros) 0x2000 guest exiting
    ≡ resume exit_cpu guest (record {
      machine =
          put_field plain_vmcs 0x681e (u64 (v + u32 v)) (reads plain_vmcs 4 v exiting.machine);
      engine = exiting.engine;
    })
vmexit_handler_lem_example =
    vmexit_handler_lem exit_cpu (λ a. zeros) 0x2000 guest exiting
      (omega arith, omega arith, omega arith, omega arith)

vmexit_dispatch-append_example :
    IsRecorded
      (vmexit_dispatch exit_cpu (λ a. zeros) 0x2000 28 0 0 4 exiting).1.engine
      (append_all (intercepted exit_cpu 0x2000 28 0 0 4 exiting.machine) [])
unfolding IsRecorded
vmexit_dispatch-append_example =
    vmexit_dispatch-append exit_cpu (λ a. zeros) 0x2000 28 0 0 4 exiting []
      (set_up, trace_init-Holds new_engine)

intercept_cpuid-fields_example :
    let s' = (intercept_cpuid exit_cpu 1 exiting).1 in
    let rows = identity_rows exit_cpu 1 in
    AllHold (λ f. true) s'.machine rows
    × ((g : ℕ) → has_row rows g ≡ false → s'.machine g ≡ exiting.machine g)
    × (s'.engine ≡ exiting.engine)
intercept_cpuid-fields_example =
    intercept_cpuid-fields exit_cpu (λ m. m) plain_vmcs-VmcsLaws 1 exiting
