-- ===== src/Host/Beside.antt =====
-- A host whose machine stands beside a state that its calls leave alone. A client of the host that wants
-- some calls to use that state replaces them.
use kernova_tee.Host.{Host}

module _ (S : Type 0) {M : Type 0} (host : Host M) where
  abbrev pub beside : Host (S × M)
  beside = record {
    cpuid = host.cpuid;
    getenv = host.getenv;
    open_device = λ s. let (fd, m) = host.open_device s.1 in (fd, (s.0, m));
    query_caps = λ fd s. let (r, caps, m) = host.query_caps fd s.1 in (r, caps, (s.0, m));
    init_backend = λ fd q s. let (r, m) = host.init_backend fd q s.1 in (r, (s.0, m));
    create_vm = λ fd q s. let (r, m) = host.create_vm fd q s.1 in (r, (s.0, m));
    run_vm = λ fd q s. let (r, q', m) = host.run_vm fd q s.1 in (r, q', (s.0, m));
    destroy_vm = λ fd s. let (r, m) = host.destroy_vm fd s.1 in (r, (s.0, m));
    close = λ fd s. let (r, m) = host.close fd s.1 in (r, (s.0, m));
    vmx_init = λ s. let (r, m) = host.vmx_init s.1 in (r, (s.0, m));
    vmcs_setup = λ s. let (r, m) = host.vmcs_setup s.1 in (r, (s.0, m));
    vmx_launch = λ s. let (r, m) = host.vmx_launch s.1 in (r, (s.0, m));
    vmxoff = λ s. (s.0, host.vmxoff s.1);
    aligned_alloc = λ n s. let (b, m) = host.aligned_alloc n s.1 in (b, (s.0, m));
    free = λ p a s. (s.0, host.free p a s.1);
    simd_pack_data = host.simd_pack_data;
    simd_unpack_data = host.simd_unpack_data;
    simd_zero_memory = host.simd_zero_memory;
    trace_init = λ s. let (r, m) = host.trace_init s.1 in (r, (s.0, m));
    trace_check_integrity = λ s. let (r, m) = host.trace_check_integrity s.1 in (r, (s.0, m));
    trace_log_event = λ t v s. let (r, m) = host.trace_log_event t v s.1 in (r, (s.0, m));
  }
