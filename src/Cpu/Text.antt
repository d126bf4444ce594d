-- ===== src/Cpu/Text.antt =====
-- `strcmp` on a char array that ends with a NUL.
use kernova_tee.Prelude.{ℕ, ◌≡◌, refl, ◌≢◌, true, List, [], ◌∷◌, ◌++◌, arith, length}
use kernova_tee.Cpu.{is_text}

abbrev pub HasNoNul : List ℕ → Type 0
HasNoNul [] = Unit {0}
HasNoNul (c ∷ cs) = (c ≢ 0) × HasNoNul cs

-- Bytes that pass the test against a text of their own length are that text.
pub eq_of_is_text :
    (cs text : List ℕ)
    → length cs ≡ length text
    → HasNoNul text
    → is_text (cs ++ 0 ∷ []) text ≡ true
    → cs ≡ text
unfolding is_text
eq_of_is_text [] [] n h e = refl
eq_of_is_text [] (d ∷ ds) n h e = absurd (omega arith)
eq_of_is_text (c ∷ cs) [] n h e = absurd (omega arith)
eq_of_is_text (c ∷ cs) (d ∷ ds) n h e = ground (arith, eq_of_is_text cs ds (omega arith) h.1)

-- A text passes the test against itself.
pub is_text_self : (text : List ℕ) → HasNoNul text → is_text (text ++ 0 ∷ []) text ≡ true
unfolding is_text
is_text_self [] h = refl
is_text_self (d ∷ ds) h = ground (arith, is_text_self ds h.1)
