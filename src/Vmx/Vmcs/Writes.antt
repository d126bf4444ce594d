-- ===== src/Vmx/Vmcs/Writes.antt =====
-- What a sequence of VMWRITE instructions leaves in the fields of the VMCS.
use kernova_tee.Prelude.{
  ℕ, ◌/◌, ◌%◌, ◌^◌, ◌≡◌, inl, inr, refl, ap, fun_ext, ◌∙◌, Option, none, some, Option-cases, Bool,
  true, false, ◌&&◌, ◌||◌, List, [], ◌∷◌, ◌==◌, get_or, if◌then◌else◌, Bool-cases, arith,
}
use kernova_tee.Vmx.Vmcs.{VmcsInstructions, put_field, put_fields}

-- Bits 14 and 13 of an encoding tell how wide its field is.
abbrev pub width : ℕ → ℕ
width field =
    let kind = field / 2 ^ 13 % 4 in if kind == 0 then 16 else if kind == 2 then 32 else 64

-- Bit 0 of an encoding is clear for an access to the full field; the odd encodings, of the high half of a
-- 64-bit field, are not written by the code.
abbrev pub is_full : ℕ → Bool
is_full field = field % 2 == 0

abbrev pub all_full : List (ℕ × ℕ) → Bool
all_full [] = true
all_full ((f, v) ∷ writes) = is_full f && all_full writes

-- What the manual says of VMREAD, VMWRITE and the registers, where `field m g` is what the field `g` of the
-- current VMCS holds, the VM-instruction error left out, which a failing instruction sets. `supported m g`
-- tells whether there is a current VMCS on the machine `m` and the processor can write its field `g`;
-- neither instruction changes that. A full write to a supported field stores the value, cut to the width,
-- and leaves the other fields; any other full write leaves all of them, and so does a read. No write
-- changes an MSR or a control register.
pub record VmcsLaws {M : Type 0} (cpu : VmcsInstructions M) (field : M → ℕ → ℕ) : Type 0 where
  pub supported : M → ℕ → Bool
  pub vmwrite_fields :
      (f v : ℕ) (m : M) (g : ℕ)
      → is_full f ≡ true
      → field (cpu.vmwrite f v m).1 g
        ≡ (if (g == f) && supported m f then v % 2 ^ width f else field m g)
  pub vmwrite_supported :
      (f v : ℕ) (m : M) (g : ℕ) → supported (cpu.vmwrite f v m).1 g ≡ supported m g
  pub vmread_supported : (f : ℕ) (m : M) (g : ℕ) → supported (cpu.vmread f m).1 g ≡ supported m g
  pub vmread_fields : (f : ℕ) (m : M) (g : ℕ) → field (cpu.vmread f m).1 g ≡ field m g
  pub vmwrite_rdmsr : (f v : ℕ) (m : M) (a : ℕ) → cpu.rdmsr a (cpu.vmwrite f v m).1 ≡ cpu.rdmsr a m
  pub vmwrite_cr0 : (f v : ℕ) (m : M) → cpu.read_cr0 (cpu.vmwrite f v m).1 ≡ cpu.read_cr0 m
  pub vmwrite_cr3 : (f v : ℕ) (m : M) → cpu.read_cr3 (cpu.vmwrite f v m).1 ≡ cpu.read_cr3 m
  pub vmwrite_cr4 : (f v : ℕ) (m : M) → cpu.read_cr4 (cpu.vmwrite f v m).1 ≡ cpu.read_cr4 m

-- Every row holds, if the processor has its field.
abbrev pub AllHold : (ℕ → Bool) → (ℕ → ℕ) → List (ℕ × ℕ) → Type 0
AllHold supported now [] = Unit
AllHold supported now ((f, v) ∷ rows) =
    (supported f ≡ true → now f ≡ v) × AllHold supported now rows

abbrev pub has_row : List (ℕ × ℕ) → ℕ → Bool
has_row [] g = false
has_row ((f, v) ∷ rows) g = (g == f) || has_row rows g

-- What a sequence of writes leaves in a field.
abbrev pub after : (ℕ → Bool) → List (ℕ × ℕ) → ℕ → ℕ → ℕ
after supported [] g d = d
after supported ((f, v) ∷ writes) g d =
    after supported writes g (if (g == f) && supported f then v % 2 ^ width f else d)

-- The value that the last write to a field stores, if there is one.
abbrev last : List (ℕ × ℕ) → ℕ → Option ℕ
last [] g = none
last ((f, v) ∷ writes) g = elim (last writes g) [
  | some w ↦ some w
  | none ↦ if g == f then some (v % 2 ^ width f) else none
]

abbrev pub lasts : List (ℕ × ℕ) → List (ℕ × ℕ) → List (Option ℕ)
lasts writes [] = []
lasts writes ((f, v) ∷ rows) = last writes f ∷ lasts writes rows

abbrev pub values : List (ℕ × ℕ) → List (Option ℕ)
values [] = []
values ((f, v) ∷ rows) = some v ∷ values rows

none-some : {v : ℕ} → Path (Option ℕ) none (some v) → ⊥
none-some e = ground (arith, e)

abbrev tail : List (Option ℕ) → List (Option ℕ)
tail [] = []
tail (x ∷ xs) = xs

after_unwritten :
    (supported : ℕ → Bool) (writes : List (ℕ × ℕ)) (g d : ℕ)
    → last writes g ≡ none
    → after supported writes g d ≡ d
after_unwritten supported [] g d unwritten = refl
after_unwritten supported ((f, v) ∷ writes) g d unwritten = elim (Bool-cases (g == f)) [
  | inl e ↦ elim (Option-cases (last writes g)) [
    | inl later ↦ absurd (ground (arith, unwritten, e, later))
    | inr (w, later) ↦ absurd (ground (arith, unwritten, e, later))
  ]
  | inr e ↦ elim (Option-cases (last writes g)) [
    | inl later ↦ rw (e) (after_unwritten supported writes g d later)
    | inr (w, later) ↦ absurd (ground (arith, unwritten, e, later))
  ]
]

after-last :
    (supported : ℕ → Bool) (writes : List (ℕ × ℕ)) (g v d : ℕ)
    → supported g ≡ true
    → last writes g ≡ some v
    → after supported writes g d ≡ v
after-last supported [] g v d had found = absurd (none-some found)
after-last supported ((f, w) ∷ writes) g v d had found = elim (Option-cases (last writes g)) [
  | inr (u, later) ↦
      let same : last writes g ≡ some v = ground (arith, later, found) in
      after-last supported writes g v _ had same
  | inl later ↦
      let stored : (if (g == f) && supported f then w % 2 ^ width f else d) ≡ v =
        ground (arith, had, found, later) in
      after_unwritten supported writes g _ later ∙ stored
]

pub AllHold-after :
    (supported : ℕ → Bool) (writes rows : List (ℕ × ℕ)) (d : ℕ → ℕ)
    → lasts writes rows ≡ values rows
    → AllHold supported (λ g. after supported writes g (d g)) rows
AllHold-after supported writes [] d agree = tt
AllHold-after supported writes ((f, v) ∷ rows) d agree = (
  λ had.
      after-last supported writes f v (d f) had
        (ap (λ (l : List (Option ℕ)). get_or l 0 none) agree),
  AllHold-after supported writes rows d (ap tail agree),
)

-- Whether each write is to a field of the rows.
abbrev pub all_listed : List (ℕ × ℕ) → List (ℕ × ℕ) → Bool
all_listed rows [] = true
all_listed rows ((f, v) ∷ writes) = has_row rows f && all_listed rows writes

pub after_unlisted :
    (supported : ℕ → Bool) (rows writes : List (ℕ × ℕ)) (g d : ℕ)
    → all_listed rows writes ≡ true
    → has_row rows g ≡ false
    → after supported writes g d ≡ d
after_unlisted supported rows [] g d listed other = refl
after_unlisted supported rows ((f, v) ∷ writes) g d listed other = elim (Bool-cases (g == f)) [
  | inl e ↦
      let same : g ≡ f = ground arith in
      let found : has_row rows f ≡ true = ground (arith, listed) in
      absurd (ground (arith, found, same, other))
  | inr e ↦ rw (e) (after_unlisted supported rows writes g d (ground (arith, listed)) other)
]

module _ {M : Type 0} (cpu : VmcsInstructions M) (field : M → ℕ → ℕ)
    (laws : VmcsLaws cpu field) where
  open laws use {
    supported, vmwrite_fields, vmwrite_supported, vmwrite_rdmsr, vmwrite_cr0, vmwrite_cr3,
    vmwrite_cr4,
  }

  pub put_fields-field :
      (writes : List (ℕ × ℕ)) (m : M) (g : ℕ)
      → all_full writes ≡ true
      → field (put_fields cpu writes m) g ≡ after (supported m) writes g (field m g)
  put_fields-field [] m g full = refl
  put_fields-field ((f, v) ∷ writes) m g full =
      let first : is_full f ≡ true = ground (arith, full) in
      let rest : all_full writes ≡ true = ground (arith, full) in
      put_fields-field writes (put_field cpu f v m) g rest
      ∙ ap (λ (has : ℕ → Bool). after has writes g (field (put_field cpu f v m) g))
          (fun_ext (vmwrite_supported f v m))
      ∙ ap (after (supported m) writes g) (vmwrite_fields f v m g first)

  pub put_fields-cr0 :
      (writes : List (ℕ × ℕ)) (m : M) → cpu.read_cr0 (put_fields cpu writes m) ≡ cpu.read_cr0 m
  put_fields-cr0 [] m = refl
  put_fields-cr0 ((f, v) ∷ writes) m = put_fields-cr0 writes _ ∙ vmwrite_cr0 f v m

  pub put_fields-cr3 :
      (writes : List (ℕ × ℕ)) (m : M) → cpu.read_cr3 (put_fields cpu writes m) ≡ cpu.read_cr3 m
  put_fields-cr3 [] m = refl
  put_fields-cr3 ((f, v) ∷ writes) m = put_fields-cr3 writes _ ∙ vmwrite_cr3 f v m

  pub put_fields-cr4 :
      (writes : List (ℕ × ℕ)) (m : M) → cpu.read_cr4 (put_fields cpu writes m) ≡ cpu.read_cr4 m
  put_fields-cr4 [] m = refl
  put_fields-cr4 ((f, v) ∷ writes) m = put_fields-cr4 writes _ ∙ vmwrite_cr4 f v m
