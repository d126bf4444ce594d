-- ===== src/Prelude/Arrays.antt =====
-- A byte array as a function of the index. Its length is kept beside it, where the source keeps one.
use Prim.Native.Nat.{ℕ, zero, suc}
use mathlib.Core.List.{List, [], ◌∷◌}
use kernova_tee.Prelude.Tests.{ltb, ◌==◌, if◌then◌else◌}

abbrev pub Bytes : Type 0
Bytes = ℕ → ℕ

-- `a[i] = v`
abbrev pub store : Bytes → ℕ → ℕ → Bytes
store a i v j = if j == i then v else a j

-- `memset(a, v, n)`
abbrev pub fill : Bytes → ℕ → ℕ → Bytes
fill a v n j = if ltb j n then v else a j

-- `memcpy(dest, src, n)`
abbrev pub copy : Bytes → Bytes → ℕ → Bytes
copy dest src n j = if ltb j n then src j else dest j

abbrev pub zeros : Bytes
zeros j = 0

abbrev pub length {ℓ} : {A : Type ℓ} → List A → ℕ
length [] = 0
length (x ∷ xs) = suc (length xs)

abbrev pub get_or {ℓ} : {A : Type ℓ} → List A → ℕ → A → A
get_or [] i d = d
get_or (x ∷ xs) zero d = x
get_or (x ∷ xs) (suc i) d = get_or xs i d
