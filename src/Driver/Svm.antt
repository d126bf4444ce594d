-- ===== src/Driver/Svm.antt =====
-- service-kernel/linux/amd_svm/amd_svm.c: the SVM context of the driver. What is printed is left out.
use kernova_tee.Prelude.{
  ℕ, ◌^◌, Bool, true, false, not, ◌&&◌, ◌||◌, Option, none, some, ltb, ◌==◌, if◌then◌else◌, bit_and,
  bit_or, Bytes, zeros, ℤ, pos,
}
use kernova_tee.Abi.{Caps, RunRequest, run_allow_privileged}
use kernova_tee.Abi.State
use kernova_tee.Driver.Layout
use kernova_tee.Driver.Pages.{vmcb_read, prepare_guest_page, prepare_vmcb}
use kernova_tee.Driver.{
  Page, Ring0, cleared_context, DriverState, eperm, enomem, enodev, einval, eopnotsupp,
}

abbrev pub msr_efer : ℕ
msr_efer = 0xc0000080

abbrev pub msr_vm_cr : ℕ
msr_vm_cr = 0xc0010114

abbrev pub msr_vm_hsave_pa : ℕ
msr_vm_hsave_pa = 0xc0010117

abbrev pub efer_svme : ℕ
efer_svme = 2 ^ 12

abbrev pub vm_cr_svmdis : ℕ
vm_cr_svmdis = 2 ^ 4

abbrev pub page_bytes : Option Page → Bytes
page_bytes none = zeros
page_bytes (some p) = p.contents

abbrev pub with_bytes : Option Page → Bytes → Option Page
with_bytes none a = none
with_bytes (some p) a = some (record p { contents = a })

abbrev pub is_missing {ℓ} : {A : Type ℓ} → Option A → Bool
is_missing none = true
is_missing (some x) = false

abbrev as_number : Bool → ℕ
as_number b = if b then 1 else 0

module _ {M : Type 0} (ring0 : Ring0 M) where
  open ring0 use {allow_vmrun, rdmsr, wrmsr, get_free_page, free_page, virt_to_phys, vmrun}

  unfoldable pub fill_caps : DriverState M → DriverState M
  fill_caps s =
      let filled : Caps = record s.caps {
        svm_initialized = as_number s.svm.initialized;
        vm_created = as_number s.svm.vm_created;
        vmrun_enabled = as_number (allow_vmrun s.machine);
        last_vmexit_valid = as_number (not (s.svm.last_exit_code == 0));
        last_exit_code = s.svm.last_exit_code;
        last_exit_info1 = s.svm.last_exit_info1;
        last_exit_info2 = s.svm.last_exit_info2;
      } in
      if s.svm.vm_created
      then record s { caps = record filled { runtime_state = State.vm_created } }
      else if s.svm.initialized
      then record s { caps = record filled { runtime_state = State.backend_initialized } }
      else record s { caps = filled }

  -- `kernova_alloc_page`: the address of a page and its physical address
  abbrev located : Option ℕ → Option (ℕ × ℕ)
  located none = none
  located (some p) = some (p, virt_to_phys p)

  abbrev alloc_page : M → Option (ℕ × ℕ) × M
  alloc_page m = let (p, m') = get_free_page m in (located p, m')

  -- `kernova_free_page`
  unfoldable pub free_one : Option Page → M → M
  free_one none m = m
  free_one (some p) m = free_page p.address m

  -- Lines 203-215, once the page for the host's state is there.
  enable : DriverState M → ℕ × ℕ → ℤ × DriverState M
  enable s (p, pa) =
      let efer = rdmsr msr_efer s.machine in
      let hsave = rdmsr msr_vm_hsave_pa s.machine in
      (
        pos 0,
        record s {
          machine = wrmsr msr_vm_hsave_pa pa (wrmsr msr_efer (bit_or efer efer_svme) s.machine);
          svm = record s.svm {
            host_save_area = some (record { address = p; contents = zeros });
            host_save_pa = pa;
            original_efer = efer;
            efer_saved = true;
            original_vm_hsave_pa = hsave;
            hsave_saved = true;
            initialized = true;
          };
        },
      )

  -- Lines 198-215.
  enter : DriverState M → Option (ℕ × ℕ) × M → ℤ × DriverState M
  unfolding enable
  enter s (none, m) = (enomem, record s { machine = m })
  enter s (some page, m) = enable (record s { machine = m }) page

  unfoldable pub svm_init : DriverState M → ℤ × DriverState M
  unfolding enter
  svm_init s =
      if s.caps.svm_supported == 0
      then (enodev, s)
      else if not (bit_and (rdmsr msr_vm_cr s.machine) vm_cr_svmdis == 0)
      then (eopnotsupp, s)
      else if s.svm.initialized
      then (pos 0, s)
      else enter s (alloc_page s.machine)

  -- Lines 244-251.
  create : DriverState M → ℤ × DriverState M
  unfolding prepare_guest_page prepare_vmcb
  create s = (
    pos 0,
    record s {
      svm = record s.svm {
        guest_page = with_bytes s.svm.guest_page (prepare_guest_page (page_bytes s.svm.guest_page));
        vmcb = with_bytes s.svm.vmcb (prepare_vmcb (page_bytes s.svm.vmcb) s.svm.guest_pa);
        vm_created = true;
      };
    },
  )

  -- Lines 237-251: a new guest page, or the VMCB page goes too.
  take_guest : DriverState M → Option (ℕ × ℕ) × M → ℤ × DriverState M
  unfolding create free_one
  take_guest s (none, m) =
      (enomem, record s { machine = free_one s.svm.vmcb m; svm = record s.svm { vmcb = none } })
  take_guest s (some (p, pa), m) = create (record s {
    machine = m;
    svm = record s.svm {
      guest_page = some (record { address = p; contents = zeros });
      guest_pa = pa;
    };
  })

  -- Lines 236-251.
  with_guest : DriverState M → ℤ × DriverState M
  unfolding take_guest create
  with_guest s =
      if is_missing s.svm.guest_page then take_guest s (alloc_page s.machine) else create s

  -- Lines 230-251.
  take_vmcb : DriverState M → Option (ℕ × ℕ) × M → ℤ × DriverState M
  unfolding with_guest
  take_vmcb s (none, m) = (enomem, record s { machine = m })
  take_vmcb s (some (p, pa), m) = with_guest (record s {
    machine = m;
    svm = record s.svm { vmcb = some (record { address = p; contents = zeros }); vmcb_pa = pa };
  })

  unfoldable pub svm_create_vm : DriverState M → ℕ → ℤ × DriverState M
  unfolding take_vmcb with_guest
  svm_create_vm s guest_size =
      if not s.svm.initialized
      then (einval, s)
      else if not (guest_size == 0) && ltb 4096 guest_size
      then (einval, s)
      else if is_missing s.svm.vmcb
      then take_vmcb s (alloc_page s.machine)
      else with_guest s

  -- Lines 277-299.
  launch_guest : DriverState M → RunRequest → ℤ × RunRequest × DriverState M
  unfolding vmcb_read
  launch_guest s request =
      let (page, guest, m) =
        vmrun s.svm.vmcb_pa (page_bytes s.svm.vmcb) (page_bytes s.svm.guest_page) s.machine in
      let code = vmcb_read 8 page Layout.exit_code in
      let info1 = vmcb_read 8 page Layout.exit_info1 in
      let info2 = vmcb_read 8 page Layout.exit_info2 in
      (
        pos 0,
        record request {
          runtime_state = State.vmexit_received;
          exit_code = code;
          exit_info1 = info1;
          exit_info2 = info2;
        },
        record s {
          machine = m;
          svm = record s.svm {
            vmcb = with_bytes s.svm.vmcb page;
            guest_page = with_bytes s.svm.guest_page guest;
            last_exit_code = code;
            last_exit_info1 = info1;
            last_exit_info2 = info2;
          };
        },
      )

  unfoldable pub svm_run : DriverState M → RunRequest → ℤ × RunRequest × DriverState M
  unfolding launch_guest
  svm_run s request =
      let reset : RunRequest = record request {
        status = pos 0;
        runtime_state = State.uninitialized;
        exit_code = 0;
        exit_info1 = 0;
        exit_info2 = 0;
      } in
      if not s.svm.initialized || not s.svm.vm_created
      then (einval, record reset { status = einval; runtime_state = State.error }, s)
      else if not (allow_vmrun s.machine) || bit_and request.flags run_allow_privileged == 0
      then (eperm, record reset { status = eperm; runtime_state = State.launch_blocked }, s)
      else launch_guest s reset

  unfoldable pub svm_destroy : DriverState M → DriverState M
  unfolding free_one
  svm_destroy s =
      let c = s.svm in
      let hsave =
        if c.hsave_saved
        then wrmsr msr_vm_hsave_pa c.original_vm_hsave_pa s.machine
        else s.machine in
      let efer = if c.efer_saved then wrmsr msr_efer c.original_efer hsave else hsave in
      record s {
        machine = free_one c.host_save_area (free_one c.vmcb (free_one c.guest_page efer));
        svm = cleared_context;
      }
