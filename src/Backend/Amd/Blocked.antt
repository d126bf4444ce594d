-- ===== src/Backend/Amd/Blocked.antt =====
-- The userspace AMD backend never runs a guest: every sequence of its methods.
use kernova_tee.Prelude.{
  ◌≡◌, ◌≢◌, refl, ◌⊎◌, inl, inr, true, List, [], ◌∷◌, arith, ℤ, pos, minus_one, minus_two,
}
use kernova_tee.Cpu.{Cpuid, detect_cpu_features}
use kernova_tee.Svm.{
  unsupported, prepared, launch_blocked, SvmRuntimeContext, new_context,
  capabilities_from_cpu_features, has_minimum_runtime_support, attempt_vmrun,
}
use kernova_tee.Svm.Runtime.{prepared_context, prepare_cases}
use kernova_tee.Backend.Amd.{init, setup_guest, launch, shutdown}

-- A call of a method.
pub data Call : Type 0 where
  inits sets_up launches shuts_down : Call

-- The context after a call, and the code that it returns (0 for `shutdown`, which returns none).
pub call : Cpuid → SvmRuntimeContext → Call → SvmRuntimeContext × ℤ
call cpuid c inits = let (r, c') = init cpuid c in (c', r)
call cpuid c sets_up = (c, setup_guest c)
call cpuid c launches = let (r, c') = launch c in (c', r)
call cpuid c shuts_down = (shutdown c, pos 0)

pub calls : Cpuid → SvmRuntimeContext → List Call → SvmRuntimeContext
calls cpuid c [] = c
calls cpuid c (k ∷ ks) = calls cpuid (call cpuid c k).0 ks

-- Either the context is unsupported; or the processor has the minimum support, the context holds its
-- capabilities and the page prepared for them, and it is prepared or has been blocked.
abbrev pub IsBlocked : Cpuid → SvmRuntimeContext → Type 0
IsBlocked cpuid c =
    let f = detect_cpu_features cpuid in
    (c.state ≡ unsupported)
    ⊎ (((c.state ≡ prepared) ⊎ (c.state ≡ launch_blocked))
        × (has_minimum_runtime_support (capabilities_from_cpu_features f) ≡ true)
        × (c.capabilities ≡ (prepared_context f).capabilities)
        × (c.vmcb ≡ (prepared_context f).vmcb))

init-IsBlocked : (cpuid : Cpuid) (c : SvmRuntimeContext) → IsBlocked cpuid (init cpuid c).1
unfolding init
init-IsBlocked cpuid c = elim (prepare_cases c (detect_cpu_features cpuid)) [
  | inl (enough, e) ↦ rw (e, init) (inr (inl refl, enough, refl, refl))
  | inr (less, e) ↦ rw (e, init) (inl refl)
]

launch-IsBlocked :
    (cpuid : Cpuid) (c : SvmRuntimeContext) → IsBlocked cpuid c → IsBlocked cpuid (launch c).1
unfolding launch attempt_vmrun
launch-IsBlocked cpuid c (inl off) = rw off (inl refl)
launch-IsBlocked cpuid c (inr (inl ready, enough, caps, page)) =
    rw ready (inr (inr refl, enough, caps, page))
launch-IsBlocked cpuid c (inr (inr blocked, enough, caps, page)) =
    rw blocked (inr (inr refl, enough, caps, page))

call-IsBlocked :
    (cpuid : Cpuid) (c : SvmRuntimeContext) (k : Call)
    → IsBlocked cpuid c
    → IsBlocked cpuid (call cpuid c k).0
unfolding call shutdown new_context
call-IsBlocked cpuid c inits h = init-IsBlocked cpuid c
call-IsBlocked cpuid c sets_up h = h
call-IsBlocked cpuid c launches h = launch-IsBlocked cpuid c h
call-IsBlocked cpuid c shuts_down h = inl refl

calls-IsBlocked :
    (cpuid : Cpuid) (c : SvmRuntimeContext) (ks : List Call)
    → IsBlocked cpuid c
    → IsBlocked cpuid (calls cpuid c ks)
unfolding calls
calls-IsBlocked cpuid c [] h = h
calls-IsBlocked cpuid c (k ∷ ks) h =
    calls-IsBlocked cpuid (call cpuid c k).0 ks (call-IsBlocked cpuid c k h)

-- After any calls on a new backend the context is `IsBlocked`: so it is never in the states `supported`
-- and `launch_attempted`, and past `unsupported` only on a processor with the minimum support.
pub calls-new-IsBlocked :
    (cpuid : Cpuid) (ks : List Call) → IsBlocked cpuid (calls cpuid new_context ks)
calls-new-IsBlocked cpuid ks =
    calls-IsBlocked cpuid new_context ks (inl (unfold new_context in refl))

-- A launch returns -2 from the prepared state and leaves it for `launch_blocked`; from every other state
-- it returns -1 and stays. It never returns 0, and a launch after a launch returns -1.
pub launch_cases :
    (c : SvmRuntimeContext)
    → let (r, c') = launch c in
      (((c.state ≡ prepared) × (r ≡ minus_two) × (c'.state ≡ launch_blocked))
        ⊎ ((c.state ≢ prepared) × (r ≡ minus_one) × (c'.state ≡ c.state)))
      × ((launch c').0 ≡ minus_one)
unfolding launch attempt_vmrun
launch_cases c = ground arith
