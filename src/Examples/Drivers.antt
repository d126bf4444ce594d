-- ===== src/Examples/Drivers.antt =====
-- The theorems on the Linux driver, at a concrete machine.
use kernova_tee.Prelude.{
  ℕ, ◌≡◌, refl, ◌↔◌, ◌⊎◌, true, false, List, [], ◌∷◌, pos, some, ◌==◌, if◌then◌else◌, is_negative,
  not,
}
use kernova_tee.Abi.{Caps, RunRequest}
use kernova_tee.Backend.{hardware_backend_enabled}
use kernova_tee.Backend.Kernel.{KernelDriver, new_driver, init, setup_guest, launch}
use kernova_tee.Driver.{Ring0, DriverState, cleared_context}
use kernova_tee.Driver.Svm.{msr_efer, msr_vm_cr}
use kernova_tee.Driver.Ioctl.{
  Command, init_backend, create_vm, run_vm, query_caps, reports, ioctl, module_init, zeroed_caps,
}
use kernova_tee.Driver.Invariant.{Holds, ioctls}
use kernova_tee.Driver.Built.{IsBuilt, session-IsBuilt}
use kernova_tee.Driver.Consent.{Event, request, outside, events, HadConsent, session_query_lem}
use kernova_tee.Driver.Ready.{IsReady}
use kernova_tee.Driver.Boot.{client_boots}
use kernova_tee.Driver.Device.{with_driver, driver_launch-zero_iff}
use kernova_tee.Examples.Machines.{amd_cpuid, strict, host_over}

-- The place of the module parameter `allow_vmrun` in the machine's state below.
abbrev allow_register : ℕ
allow_register = 1

-- A machine whose state is its registers and the module parameter; its one free page is at 8192, and a VMRUN exits with the code 0x78.
abbrev amd_ring0 : Ring0 (ℕ → ℕ)
amd_ring0 = record {
  cpuid = amd_cpuid;
  has_svm = true;
  has_vmx = false;
  allow_vmrun = λ m. not (m allow_register == 0);
  rdmsr = λ a m. m a;
  wrmsr = λ a v m b. if b == a then v else m b;
  get_free_page = λ m. (some 8192, m);
  free_page = λ p m. m;
  virt_to_phys = λ p. p;
  vmrun = λ pa vmcb guest m. ((λ i. if i == 0x70 then 0x78 else vmcb i), guest, m);
}

abbrev run_request : RunRequest
run_request = record {
  flags = 1;
  runtime_state = 0;
  status = pos 0;
  exit_code = 0;
  exit_info1 = 0;
  exit_info2 = 0;
}

abbrev session : List Command
session =
    init_backend (some (record { backend_flags = 1 }))
    ∷ create_vm (some (record { backend_flags = 1; guest_size = 4096 }))
    ∷ run_vm (some run_request) true
    ∷ []

-- The registers before the driver is loaded.
abbrev registers : ℕ → ℕ
registers a = if a == msr_efer then 0xd01 else if a == allow_register then 1 else 0

session-IsBuilt_example : Holds IsBuilt (ioctls amd_ring0 session (module_init amd_ring0 registers))
session-IsBuilt_example = session-IsBuilt amd_ring0 registers session

-- The parameter is set for the run and cleared before the query.
abbrev toggled : List (Event (ℕ → ℕ))
toggled =
    request (init_backend (some (record { backend_flags = 1 })))
    ∷ request (create_vm (some (record { backend_flags = 1; guest_size = 4096 })))
    ∷ request (run_vm (some run_request) true)
    ∷ outside (λ m a. if a == allow_register then 0 else m a)
    ∷ []

session_query_lem_example :
    let s = module_init amd_ring0 registers in
    let (r, reply, s') = ioctl amd_ring0 (query_caps true) (events amd_ring0 toggled s) in
    (r ≡ pos 0)
    × ((c : Caps) × (reply ≡ reports c)
        × ((c.last_vmexit_valid ≡ 0) ⊎ HadConsent amd_ring0 toggled s))
session_query_lem_example = session_query_lem amd_ring0 registers toggled

abbrev idle : DriverState (ℕ → ℕ)
idle = record { machine = registers; caps = zeroed_caps; svm = cleared_context }

abbrev open_client : KernelDriver
open_client = record { fd = pos 3; initialized = true; configured = true }

driver_launch-zero_iff_example :
    ((launch (with_driver amd_ring0 (host_over amd_cpuid strict)) open_client idle).0 ≡ pos 0) ↔ (
      (is_negative open_client.fd ≡ false)
      × (open_client.configured ≡ true)
      × (idle.svm.initialized ≡ true)
      × (idle.svm.vm_created ≡ true)
      × (amd_ring0.allow_vmrun idle.machine ≡ true)
      × (hardware_backend_enabled strict ≡ true))
driver_launch-zero_iff_example =
    driver_launch-zero_iff amd_ring0 (host_over amd_cpuid strict) open_client idle

-- A machine on which SVM is never locked.
abbrev ready_ring0 : Ring0 (ℕ → ℕ)
ready_ring0 = record amd_ring0 {
  allow_vmrun = λ m. true;
  rdmsr = λ a m. if a == msr_vm_cr then 0 else m a;
}

ready_ring0-IsReady : IsReady ready_ring0
ready_ring0-IsReady = record {
  svm = refl;
  unlocked = λ m. refl;
  pages = λ m. (8192, m, refl);
  allowed = λ m. refl;
}

client_boots_example :
    let host = with_driver ready_ring0 (host_over amd_cpuid strict) in
    let (r1, k1, s1) = init host new_driver idle in
    let (r2, k2, s2) = setup_guest host k1 s1 in
    (r1 ≡ pos 0) × (r2 ≡ pos 0) × ((launch host k2 s2).0 ≡ pos 0)
unfolding hardware_backend_enabled
client_boots_example =
    client_boots ready_ring0 ready_ring0-IsReady (host_over amd_cpuid strict) idle refl refl
