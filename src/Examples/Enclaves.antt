-- ===== src/Examples/Enclaves.antt =====
-- The theorems on the enclave and on the monitor, at concrete hosts.
use kernova_tee.Prelude.{
  List, [], ◌∷◌, ◌+◌, ◌≡◌, refl, inr, true, false, arith, pos, some, zeros, ltb, if◌then◌else◌,
  Bytes,
}
use kernova_tee.Enclave.{cleanup, send_data, receive_data}
use kernova_tee.Enclave.Lifecycle.{
  IsSound, here, next, enclave_send, enclave_cleanup, Reach-IsSound,
}
use kernova_tee.Enclave.Mailbox.{
  Request, send, receive, mailbox_all, call_all, Represents, call_all-mailbox_all,
}
use kernova_tee.Enclave.Transfer.{send-receive_twice}
use kernova_tee.Examples.Machines.{
  amd_cpuid, strict, amd_host, machine-SimdContract, live_block, live_globals,
}

-- The three bytes 1, 2, 3.
abbrev three : Bytes
three i = if ltb i 3 then i + 1 else 0

send-receive_twice_example :
    let (r, g') = send_data amd_host live_globals (some three) 3 in
    let (s, reply) = receive_data amd_host g' (some zeros) 3 in
    let (r', g'') = send_data amd_host g' (some reply) 3 in
    let (s', back) = receive_data amd_host g'' (some zeros) 3 in
    (r ≡ pos 0)
    × (s ≡ pos 0)
    × (r' ≡ pos 0)
    × (s' ≡ pos 0)
    × (reply 2 ≡ 1)
    × (back 2 ≡ 3)
    × (g''.hv.data_transferred_bytes ≡ 6)
send-receive_twice_example =
    send-receive_twice amd_host (machine-SimdContract amd_cpuid strict false true) live_globals
      live_block three zeros zeros 3 2 refl refl (omega arith) (omega arith)

Reach-IsSound_example :
    IsSound (cleanup amd_host (send_data amd_host live_globals (some three) 3).1)
Reach-IsSound_example =
    Reach-IsSound amd_host {g = live_globals} (inr (live_block, refl, refl, refl))
      (next (next here (enclave_send (some three) 3)) enclave_cleanup)

-- A send that is too long, one of three bytes, and a receive.
abbrev requests : List Request
requests = send (some three) 70000 ∷ send (some three) 3 ∷ receive (some zeros) 3 ∷ []

call_all-mailbox_all_example :
    let (answers, g') = call_all amd_host requests live_globals in
    let (answers', box') = mailbox_all requests zeros in (answers ≡ answers') × Represents g' box'
call_all-mailbox_all_example =
    call_all-mailbox_all amd_host (machine-SimdContract amd_cpuid strict false true) requests
      live_globals zeros (refl, (live_block, refl, refl))
