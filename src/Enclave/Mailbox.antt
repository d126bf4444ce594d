-- ===== src/Enclave/Mailbox.antt =====
-- An active enclave is a mailbox: what its calls answer, in any sequence.
use kernova_tee.Prelude.{
  ℕ, ◌-◌, ◌≡◌, refl, ap, ◌∙◌, fun_ext, true, some, none, List, [], ◌∷◌, Bytes, ltb, ◌==◌,
  if◌then◌else◌, ℤ, pos, minus_one, minus_two, copy, zeros, Bool-cases, inl, inr, arith,
}
use kernova_tee.Host.{Host}
use kernova_tee.Globals.{Block, Globals}
use kernova_tee.Enclave.{
  Pointer, data_buffer_size, contents_of, reverse_prefix, send_data, receive_data,
}
use kernova_tee.Enclave.Contract.{SimdContract}
use kernova_tee.Enclave.Reversal.{reverse_prefix_lem}
use kernova_tee.Enclave.Transfer.{
  sent, send_data_refused, send_data_long, send_data_packs, receive_data_refused, receive_data_long,
  receive_data_unpacks,
}

-- A call of the service, and what the caller sees of it: the result, and what is then in the
-- destination.
pub data Request : Type 0 where
  send receive : Pointer → ℕ → Request

abbrev pub Answer : Type 0
Answer = ℤ × Bytes

-- The mailbox holds the bytes of one message. A delivery puts a message there from its end to its front;
-- a collection copies from the front.
abbrev pub limited : ℕ → Answer × Bytes → Bytes → Bytes → Answer × Bytes
limited size accepted seen box =
    if size == 0
    then ((minus_one, seen), box)
    else if ltb data_buffer_size size
    then ((minus_two, seen), box)
    else accepted

abbrev pub mailbox : Request → Bytes → Answer × Bytes
mailbox (send none size) box = ((minus_one, zeros), box)
mailbox (send (some src) size) box =
    limited size ((pos 0, zeros), λ i. if ltb i size then src (size - 1 - i) else box i) zeros box
mailbox (receive none size) box = ((minus_one, zeros), box)
mailbox (receive (some dest) size) box = limited size ((pos 0, copy dest box size), box) dest box

abbrev pub mailbox_all : List Request → Bytes → List Answer × Bytes
mailbox_all [] box = ([], box)
mailbox_all (request ∷ requests) box =
    let (answer, box') = mailbox request box in
    let (answers, last) = mailbox_all requests box' in (answer ∷ answers, last)

module _ {M : Type 0} (host : Host M) where
  -- The same calls of the service. A send has no destination.
  abbrev pub call : Request → Globals M → Answer × Globals M
  call (send src size) g = let (r, g') = send_data host g src size in ((r, zeros), g')
  call (receive dest size) g = let (r, seen) = receive_data host g dest size in ((r, seen), g)

  abbrev pub call_all : List Request → Globals M → List Answer × Globals M
  call_all [] g = ([], g)
  call_all (request ∷ requests) g =
      let (answer, g') = call request g in
      let (answers, last) = call_all requests g' in (answer ∷ answers, last)

-- The enclave is active and its block holds the bytes of the mailbox.
abbrev pub Represents : {M : Type 0} → Globals M → Bytes → Type 0
Represents g box =
    (g.hv.enclave_active ≡ true) × ((b : Block) × (g.buffer.block ≡ some b) × (b.contents ≡ box))

module _ {M : Type 0} (host : Host M) (simd : SimdContract host) where
  -- What a send that is accepted leaves.
  sent-Represents :
      (src : Bytes) (size : ℕ) (g : Globals M) (box : Bytes)
      → Represents g box
      → Represents (sent g src size) (λ i. if ltb i size then src (size - 1 - i) else box i)
  sent-Represents src size g box (on, (b, here, same)) = (
    on,
    (
      record b { contents = reverse_prefix size (copy b.contents src size) },
      rw (here) refl,
      fun_ext (λ i. ground (
        arith,
        reverse_prefix_lem size (copy b.contents src size) i,
        ap (λ (a : Bytes). a i) same,
      )),
    ),
  )

  call-mailbox :
      (request : Request) (g : Globals M) (box : Bytes)
      → Represents g box
      → let (answer, g') = call host request g in
        let (answer', box') = mailbox request box in (answer ≡ answer') × Represents g' box'
  call-mailbox (send none size) g box held =
      rw (send_data_refused host g none size (inr (inl refl))) (refl, held)
  call-mailbox (send (some src) size) g box held = elim (Bool-cases (size == 0)) [
    | inl empty ↦
        rw (send_data_refused host g (some src) size (inr (inr (ground (arith, empty)))), empty)
          (refl, held)
    | inr full ↦ elim (Bool-cases (ltb data_buffer_size size)) [
      | inl long ↦
          rw (send_data_long host g src size held.0 (ground (arith, long)), full, long) (refl, held)
      | inr fits ↦
          rw
            (
              send_data_packs host g simd src size held.0 (ground (arith, full))
                  (ground (arith, fits)),
              full,
              fits,
            )
            (refl, sent-Represents src size g box held)
    ]
  ]
  call-mailbox (receive none size) g box held =
      rw (receive_data_refused host g none size (inr (inl refl))) (refl, held)
  call-mailbox (receive (some dest) size) g box held = elim (Bool-cases (size == 0)) [
    | inl empty ↦
        rw (receive_data_refused host g (some dest) size (inr (inr (ground (arith, empty)))), empty)
          (refl, held)
    | inr full ↦ elim (Bool-cases (ltb data_buffer_size size)) [
      | inl long ↦
          rw (receive_data_long host g dest size held.0 (ground (arith, long)), full, long)
            (refl, held)
      | inr fits ↦
          let (on, (b, here, same)) = held in
          let read : contents_of g.buffer.block ≡ box = ap contents_of here ∙ same in
          rw
            (
              receive_data_unpacks host g simd dest size on (ground (arith, full))
                  (ground (arith, fits)),
              full,
              fits,
            )
            (ap (λ (a : Bytes). (pos 0, copy dest a size)) read, held)
    ]
  ]

  -- The SIMD routines keep their contract, and the enclave is active and holds the bytes of the mailbox. Then any
  -- sequence of sends and receives, with whatever pointers and sizes, is answered as the mailbox answers
  -- it, result by result and byte by byte, and afterwards the enclave is active and holds the bytes that
  -- the mailbox then has.
  pub call_all-mailbox_all :
      (requests : List Request) (g : Globals M) (box : Bytes)
      → Represents g box
      → let (answers, g') = call_all host requests g in
        let (answers', box') = mailbox_all requests box in (answers ≡ answers') × Represents g' box'
  call_all-mailbox_all [] g box held = (refl, held)
  call_all-mailbox_all (request ∷ requests) g box held =
      let (same, held') = call-mailbox request g box held in
      let (rest, held'') = call_all-mailbox_all requests _ _ held' in (rw (same, rest) refl, held'')
