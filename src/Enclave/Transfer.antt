-- ===== src/Enclave/Transfer.antt =====
-- What goes into the enclave and what comes out.
use kernova_tee.Prelude.{
  ℕ, zero, suc, Bool-cases, ◌+◌, ◌-◌, ◌*◌, ◌%◌, ◌^◌, ◌<◌, ◌≤◌, ◌≡◌, refl, sym, ap, ◌⊎◌, inl, inr,
  true, false, none, some, arith, ◌∙◌, Bytes, ltb, if◌then◌else◌, pos, minus_one, minus_two, copy,
}
use kernova_tee.Host.{Host}
use kernova_tee.Globals.{Block, Globals}
use kernova_tee.Enclave.{
  Pointer, bytes_at, data_buffer_size, contents_of, set_contents, reverse_prefix, send_data,
  receive_data,
}
use kernova_tee.Enclave.Contract.{SimdContract}
use kernova_tee.Enclave.Lifecycle.{IsSound}
use kernova_tee.Enclave.Reversal.{reverse_prefix_lem}

-- The arguments that both calls refuse with -1.
abbrev pub IsRefused : {M : Type 0} → Globals M → Pointer → ℕ → Type 0
IsRefused g p size = (g.hv.enclave_active ≡ false) ⊎ ((p ≡ none) ⊎ (size ≡ 0))

-- The state after a send: the source stands reversed at the front of the buffer, the bytes behind it
-- stay, and the counter of transferred bytes grows modulo 2^64. Nothing else changes.
abbrev pub sent : {M : Type 0} → Globals M → Bytes → ℕ → Globals M
sent g src size = record g {
  buffer = record g.buffer {
    block =
        set_contents g.buffer.block
          (reverse_prefix size (copy (contents_of g.buffer.block) src size));
  };
  hv = record g.hv { data_transferred_bytes = (g.hv.data_transferred_bytes + size) % 2 ^ 64 };
}

module _ {M : Type 0} (host : Host M) (g : Globals M) where
  send_data_inactive :
      (src : Pointer) (size : ℕ)
      → g.hv.enclave_active ≡ false
      → send_data host g src size ≡ (minus_one, g)
  unfolding send_data
  send_data_inactive src size h = rw h

  send_data_null : (size : ℕ) → send_data host g none size ≡ (minus_one, g)
  unfolding send_data
  send_data_null size = ground arith

  send_data_empty : (src : Pointer) → send_data host g src 0 ≡ (minus_one, g)
  unfolding send_data
  send_data_empty src = ground arith

  pub send_data_refused :
      (src : Pointer) (size : ℕ) → IsRefused g src size → send_data host g src size ≡ (minus_one, g)
  send_data_refused src size (inl h) = send_data_inactive src size h
  send_data_refused src size (inr (inl h)) = rw h (send_data_null size)
  send_data_refused src size (inr (inr h)) = rw h (send_data_empty src)

  pub send_data_long :
      (src : Bytes) (size : ℕ)
      → g.hv.enclave_active ≡ true
      → data_buffer_size < size
      → send_data host g (some src) size ≡ (minus_two, g)
  unfolding send_data
  send_data_long src size h k = rw h (ground arith)

  pub send_data_packs :
      SimdContract host
      → (src : Bytes) (size : ℕ) → g.hv.enclave_active ≡ true
      → 0 < size
      → size ≤ data_buffer_size
      → send_data host g (some src) size ≡ (pos 0, sent g src size)
  unfolding send_data
  send_data_packs simd src size h p q =
      rw (h, simd.packs (contents_of g.buffer.block) src size 1 p (omega arith)) (ground arith)

  pub receive_data_refused :
      (dest : Pointer) (size : ℕ)
      → IsRefused g dest size
      → receive_data host g dest size ≡ (minus_one, bytes_at dest)
  unfolding receive_data
  receive_data_refused dest size (inl h) = rw h
  receive_data_refused dest size (inr (inl h)) = rw h (ground arith)
  receive_data_refused dest size (inr (inr h)) = rw h (ground arith)

  pub receive_data_long :
      (dest : Bytes) (size : ℕ)
      → g.hv.enclave_active ≡ true
      → data_buffer_size < size
      → receive_data host g (some dest) size ≡ (minus_two, dest)
  unfolding receive_data
  receive_data_long dest size h k = rw h (ground arith)

  pub receive_data_unpacks :
      SimdContract host
      → (dest : Bytes) (size : ℕ) → g.hv.enclave_active ≡ true
      → 0 < size
      → size ≤ data_buffer_size
      → receive_data host g (some dest) size ≡ (pos 0, copy dest (contents_of g.buffer.block) size)
  unfolding receive_data
  receive_data_unpacks simd dest size h p q =
      rw (h, simd.unpacks dest (contents_of g.buffer.block) size 1 p (omega arith)) (ground arith)

-- The guards that both calls share, decided.
abbrev IsAccepted : {M : Type 0} → Globals M → Pointer → ℕ → Type 0
IsAccepted g p size = (b : Bytes) × (p ≡ some b) × (g.hv.enclave_active ≡ true) × (0 < size)

guards :
    {M : Type 0} (g : Globals M) (p : Pointer) (size : ℕ) → IsRefused g p size ⊎ IsAccepted g p size
guards g none size = inl (inr (inl refl))
guards g (some b) zero = inl (inr (inr refl))
guards g (some b) (suc n) = elim (Bool-cases g.hv.enclave_active) [
  | inl on ↦ inr (b, refl, on, omega arith)
  | inr off ↦ inl (inl off)
]

le_or_lt : (a b : ℕ) → (a ≤ b) ⊎ (b < a)
le_or_lt a b = omega arith

-- A sound enclave that is active has its block.
held_block :
    {M : Type 0} (g : Globals M)
    → IsSound g
    → g.hv.enclave_active ≡ true
    → (e : Block) × (g.buffer.block ≡ some e)
held_block g (inl off) on = absurd (ground arith)
held_block g (inr (e, held, size, base)) on = (e, held)

module _ {M : Type 0} (host : Host M) (simd : SimdContract host) (g : Globals M) where
  -- Every branch of a send to a sound enclave. An inactive enclave, a null source and an empty one are refused with -1,
  -- and after those a source above 64 KiB with -2, both with no change of state; in every other case
  -- the result is 0 and the new state is `sent`. So -3 never occurs.
  pub send_data_cases :
      (src : Pointer) (size : ℕ)
      → IsSound g
      → (IsRefused g src size × (send_data host g src size ≡ (minus_one, g)))
        ⊎ ((b : Bytes) × (e : Block) × (src ≡ some b)
            × (g.buffer.block ≡ some e)
            × (g.hv.enclave_active ≡ true)
            × (((data_buffer_size < size) × (send_data host g src size ≡ (minus_two, g)))
                ⊎ ((0 < size)
                    × (size ≤ data_buffer_size)
                    × (send_data host g src size ≡ (pos 0, sent g b size)))))
  send_data_cases src size sound = elim (guards g src size) [
    | inl h ↦ inl (h, send_data_refused host g src size h)
    | inr (b, same, on, p) ↦
        let (e, held) = held_block g sound on in
        inr (
          b,
          e,
          same,
          held,
          on,
          elim (le_or_lt size data_buffer_size) [
            | inl q ↦ inr (p, q, rw same (send_data_packs host g simd b size on p q))
            | inr q ↦ inl (q, rw same (send_data_long host g b size on q))
          ],
        )
  ]

  -- Every branch of a receive from a sound enclave, with the same guards. The destination changes only if the result is
  -- 0, and then in its first `size` bytes, which are those of the enclave.
  pub receive_data_cases :
      (dest : Pointer) (size : ℕ)
      → IsSound g
      → (IsRefused g dest size × (receive_data host g dest size ≡ (minus_one, bytes_at dest)))
        ⊎ ((b : Bytes) × (e : Block) × (dest ≡ some b)
            × (g.buffer.block ≡ some e)
            × (g.hv.enclave_active ≡ true)
            × (((data_buffer_size < size) × (receive_data host g dest size ≡ (minus_two, b)))
                ⊎ ((0 < size)
                    × (size ≤ data_buffer_size)
                    × (receive_data host g dest size ≡ (pos 0, copy b e.contents size)))))
  receive_data_cases dest size sound = elim (guards g dest size) [
    | inl h ↦ inl (h, receive_data_refused host g dest size h)
    | inr (b, same, on, p) ↦
        let (e, held) = held_block g sound on in
        inr (
          b,
          e,
          same,
          held,
          on,
          elim (le_or_lt size data_buffer_size) [
            | inl q ↦ inr (
              p,
              q,
              rw (same, sym (ap contents_of held)) (receive_data_unpacks host g simd b size on p q),
            )
            | inr q ↦ inl (q, rw same (receive_data_long host g b size on q))
          ],
        )
  ]

-- What a byte of the destination is after `n` bytes are sent and `m` received: a byte of the message
-- in reverse, or behind the message what the enclave held before, or what the destination held.
abbrev pub reply_byte : Bytes → ℕ → Bytes → Bytes → ℕ → Bytes
reply_byte src n old dest m i =
    if ltb i m then (if ltb i n then src (n - 1 - i) else old i) else dest i

pub reply_byte_lem :
    (old src dest : Bytes) (n m i : ℕ)
    → copy dest (reverse_prefix n (copy old src n)) m i ≡ reply_byte src n old dest m i
reply_byte_lem old src dest n m i = ground (arith, reverse_prefix_lem n (copy old src n) i)

-- A message that goes through the enclave once, and twice.
once_byte :
    (old src dest : Bytes) (n i : ℕ)
    → copy dest (reverse_prefix n (copy old src n)) n i
      ≡ (if ltb i n then src (n - 1 - i) else dest i)
once_byte old src dest n i = ground (arith, reply_byte_lem old src dest n n i)

twice_byte :
    (old old' src dest dest' : Bytes) (n i : ℕ)
    → let reply = copy dest (reverse_prefix n (copy old src n)) n in
      copy dest' (reverse_prefix n (copy old' reply n)) n i ≡ (if ltb i n then src i else dest' i)
twice_byte old old' src dest dest' n i =
    let reply = copy dest (reverse_prefix n (copy old src n)) n in
    reply_byte_lem old' reply dest' n n i ∙ (elim (Bool-cases (ltb i n)) [
      | inr behind ↦ rw behind refl
      | inl within ↦
          let mirror : n - 1 - (n - 1 - i) ≡ i = ground (arith, within) in
          let inside : ltb (n - 1 - i) n ≡ true = ground (arith, within) in
          rw within (reply_byte_lem old src dest n n (n - 1 - i) ∙ (rw (inside) (ap src mirror)))
    ])

-- If the SIMD routines keep their contract, take an active enclave whose buffer is a block, and a message of
-- `n` bytes, 1 to 65536. It is sent, `n` bytes are received, these are sent back and `n` bytes are
-- received again. The four calls return 0. The first destination begins with the `n` bytes of the
-- message in reverse and the last one with these bytes in their order, and behind them both are as they
-- were. The counter has grown by 2n modulo 2^64.
pub send-receive_twice :
    {M : Type 0} (host : Host M) (simd : SimdContract host) (g : Globals M) (b : Block)
    (src dest dest' : Bytes) (n i : ℕ)
    → g.hv.enclave_active ≡ true
    → g.buffer.block ≡ some b
    → 0 < n
    → n ≤ data_buffer_size
    → let (r, g') = send_data host g (some src) n in
      let (s, reply) = receive_data host g' (some dest) n in
      let (r', g'') = send_data host g' (some reply) n in
      let (s', back) = receive_data host g'' (some dest') n in
      (r ≡ pos 0)
      × (s ≡ pos 0)
      × (r' ≡ pos 0)
      × (s' ≡ pos 0)
      × (reply i ≡ (if ltb i n then src (n - 1 - i) else dest i))
      × (back i ≡ (if ltb i n then src i else dest' i))
      × (g''.hv.data_transferred_bytes ≡ (g.hv.data_transferred_bytes + 2 * n) % 2 ^ 64)
send-receive_twice host simd g b src dest dest' n i on here p q =
    let g' = sent g src n in
    let reply = copy dest (contents_of g'.buffer.block) n in
    rw
      (
        send_data_packs host g simd src n on p q,
        receive_data_unpacks host g' simd dest n on p q,
        send_data_packs host g' simd reply n on p q,
        receive_data_unpacks host (sent g' reply n) simd dest' n on p q,
        here,
      )
      (
        refl,
        refl,
        refl,
        refl,
        once_byte b.contents src dest n i,
        twice_byte b.contents _ src dest dest' n i,
        omega arith,
      )
