-- ===== src/Hypervisor/Assembled.antt =====
-- A run of the program with the assembly of src/marshall and src/monitor behind its calls.
use kernova_tee.Prelude.{◌≡◌, ◌⊎◌, inl, inr, true, false, pos, arith, ℕ}
use kernova_tee.Host.{Host}
use kernova_tee.Simd.{check_avx512_support}
use kernova_tee.Simd.Contract.{with_simd, with_simd-SimdContract}
use kernova_tee.Enclave.Contract.{SimdContract}
use kernova_tee.Trace.{TraceEngine, trace_init}
use kernova_tee.Monitor.Engine.{Surroundings, with_trace}
use kernova_tee.Hypervisor.{
  World, returned, halted, strict_vmx_required, hypervisor_init, hypervisor_shutdown, main,
}
use kernova_tee.Hypervisor.Startup.{IsLive, IsEnclaveFailure, HasMemory}
use kernova_tee.Hypervisor.Run.{checked, main_cases}

module _ {M : Type 0} (around : Surroundings M) (rax : ℕ) (host : Host M) where
  -- The host whose SIMD routines and whose tracer are the assembly.
  abbrev pub assembled : Host (TraceEngine × M)
  assembled = with_trace around (with_simd rax host)

  assembled-SimdContract : check_avx512_support host.cpuid ≡ false → SimdContract assembled
  assembled-SimdContract narrow =
      let simd = with_simd-SimdContract rax host narrow in
      record { packs = simd.packs; unpacks = simd.unpacks; clears = simd.clears }

  -- On a processor without AVX-512, outside strict mode and from an inactive enclave, a run of the program over
  -- the assembly has two outcomes. `aligned_alloc` returns null, and the run ends with the code -2. Or
  -- `aligned_alloc` returns a block, the start returns 0 with a live enclave at its address, and the run halts if hardware virtualization is validated, and
  -- else ends with 0 after the shutdown.
  pub assembled-main :
      (w : World (TraceEngine × M))
      → check_avx512_support host.cpuid ≡ false
      → strict_vmx_required host.getenv ≡ false
      → w.hv.enclave_active ≡ false
      → let (r, w') = hypervisor_init assembled w in
        (IsEnclaveFailure assembled w (r, w') × (main assembled w ≡ returned (r, w')))
        ⊎ ((r ≡ pos 0)
            × HasMemory assembled w w'
            × IsLive w'
            × (((w'.hv.hardware_virtualization_validated ≡ true)
                  × (main assembled w ≡ halted (checked assembled w')))
                ⊎ ((w'.hv.hardware_virtualization_validated ≡ false)
                    × (main assembled w
                        ≡ returned (pos 0, hypervisor_shutdown assembled (checked assembled w'))))))
  unfolding trace_init
  assembled-main w narrow lax off =
      elim (main_cases assembled (assembled-SimdContract narrow) w off) [
        | inl (inl (bad, e, hv, buffer), run) ↦ absurd (ground arith)
        | inl (inr (inl gone), run) ↦ inl (gone, run)
        | inl (inr (inr (memory, (strict, code), live)), run) ↦ absurd (ground arith)
        | inr whole ↦ inr whole
      ]
