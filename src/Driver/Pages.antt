-- ===== src/Driver/Pages.antt =====
-- service-kernel/linux/amd_svm/amd_svm.c: the bytes of the VMCB and of the guest's page.
use kernova_tee.Prelude.{ℕ, zero, suc, ◌+◌, ◌-◌, ◌*◌, ◌%◌, ◌^◌, u8, ◌>>>◌, Bytes, store, fill}
use kernova_tee.Driver.Layout

-- A store of `width` bytes at an offset, the lowest byte first.
unfoldable pub vmcb_write : ℕ → Bytes → ℕ → ℕ → Bytes
vmcb_write zero page offset value = page
vmcb_write (suc width) page offset value =
    vmcb_write width (store page offset (u8 value)) (offset + 1) (value >>> 8)

unfoldable pub vmcb_write_segment : Bytes → ℕ → ℕ → ℕ → ℕ → ℕ → Bytes
unfolding vmcb_write
vmcb_write_segment page offset selector attrib limit base =
    let a = vmcb_write 2 page offset selector in
    let b = vmcb_write 2 a (offset + 2) attrib in
    let c = vmcb_write 4 b (offset + 4) limit in vmcb_write 8 c (offset + 8) base

-- The eight bytes at an offset.
unfoldable pub vmcb_read : ℕ → Bytes → ℕ → ℕ
vmcb_read zero page offset = 0
vmcb_read (suc width) page offset = page offset + 2 ^ 8 * vmcb_read width page (offset + 1)

unfoldable pub prepare_guest_page : Bytes → Bytes
prepare_guest_page old = store (store (store (fill old 0xf4 4096) 0 0x90) 1 0x90) 2 0xf4

-- The segments of lines 137-146.
prepare_segments : Bytes → Bytes
unfolding vmcb_write_segment
prepare_segments page =
    let es = vmcb_write_segment page Layout.es 0 0x93 0xffff 0 in
    let cs = vmcb_write_segment es Layout.cs 0 0x9b 0xffff 0 in
    let ss = vmcb_write_segment cs Layout.ss 0 0x93 0xffff 0 in
    let ds = vmcb_write_segment ss Layout.ds 0 0x93 0xffff 0 in
    let fs = vmcb_write_segment ds Layout.fs 0 0x93 0xffff 0 in
    let gs = vmcb_write_segment fs Layout.gs 0 0x93 0xffff 0 in
    let gdtr = vmcb_write_segment gs Layout.gdtr 0 0x82 0xffff 0 in
    let ldtr = vmcb_write_segment gdtr Layout.ldtr 0 0x82 0xffff 0 in
    let idtr = vmcb_write_segment ldtr Layout.idtr 0 0x82 0xffff 0 in
    vmcb_write_segment idtr Layout.tr 0 0x8b 0xffff 0

-- Lines 155-158: where the guest starts.
unfoldable pub prepare_entry : Bytes → ℕ → Bytes
unfolding vmcb_write
prepare_entry page guest_pa =
    let rip = vmcb_write 8 page Layout.rip guest_pa in
    let rsp = vmcb_write 8 rip Layout.rsp ((guest_pa + 4096 - 16) % 2 ^ 64) in
    let rax = vmcb_write 8 rsp Layout.rax 0 in
    vmcb_write 8 rax Layout.n_rip ((guest_pa + 3) % 2 ^ 64)

unfoldable pub prepare_vmcb : Bytes → ℕ → Bytes
unfolding vmcb_write prepare_segments prepare_entry
prepare_vmcb old guest_pa =
    let intercept = vmcb_write 8 (fill old 0 4096) Layout.intercept (2 ^ Layout.intercept_hlt) in
    let asid = vmcb_write 4 intercept Layout.asid 1 in
    let tlb = vmcb_write 1 asid Layout.tlb_control 1 in
    let segments = prepare_segments tlb in
    let efer = vmcb_write 8 segments Layout.efer 0 in
    let cr0 = vmcb_write 8 efer Layout.cr0 0x10 in
    let cr3 = vmcb_write 8 cr0 Layout.cr3 0 in
    let cr4 = vmcb_write 8 cr3 Layout.cr4 0 in
    let dr6 = vmcb_write 8 cr4 Layout.dr6 0xffff0ff0 in
    let dr7 = vmcb_write 8 dr6 Layout.dr7 0x400 in
    let rflags = vmcb_write 8 dr7 Layout.rflags 0x2 in prepare_entry rflags guest_pa
