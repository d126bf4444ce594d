-- ===== src/Examples/Processors.antt =====
-- The theorems on CPUID and on the SVM model, at concrete processors.
use kernova_tee.Prelude.{◌≡◌, false, arith}
use kernova_tee.Cpu.{detect_cpu_features}
use kernova_tee.Cpu.Report.{IsReport, detect_cpu_features-IsReport}
use kernova_tee.Examples.Machines.{amd_cpuid}
use kernova_tee.Svm.{Vmcb, no_capabilities, prepare_minimal_vmcb}
use kernova_tee.Svm.Page.{minimal_control_area, prepare_minimal_vmcb_layout}
use kernova_tee.Registers.{set_segment, set_base, set_limit, set_access, new_descriptor}
use kernova_tee.Registers.Descriptor.{set_segment_lem}

-- A page of ones.
abbrev old_page : Vmcb
old_page = record { control_area = λ i. 255; save_state_area = λ i. 255; reserved = λ i. 255 }

prepare_minimal_vmcb_layout_example :
    let v = prepare_minimal_vmcb old_page no_capabilities in
    (v.control_area 12 ≡ minimal_control_area false 12)
    × (v.save_state_area 12 ≡ 0)
    × (v.reserved 12 ≡ 0)
unfolding no_capabilities
prepare_minimal_vmcb_layout_example = prepare_minimal_vmcb_layout old_page no_capabilities 12

set_segment_lem_example : set_segment 0x12345678 0xfffff 0x9b ≡ 0x12cf9b345678ffff
unfolding set_segment set_base set_limit set_access new_descriptor
set_segment_lem_example =
    set_segment_lem 0x12345678 0xfffff 0x9b (omega arith) (omega arith) (omega arith)

detect_cpu_features-IsReport_example : IsReport amd_cpuid (detect_cpu_features amd_cpuid)
detect_cpu_features-IsReport_example =
    detect_cpu_features-IsReport amd_cpuid (omega arith, omega arith, omega arith, omega arith)
