-- ===== src/Prelude/Keys.antt =====
-- Equality of keys as an interface, for texts, numbers and triples; the byte order of texts.
use Prim.Native.Char.{code}
use Prim.Native.Nat.{ℕ}
use Prim.Native.String.{String}
use mathlib.Core.Path.{◌≡◌, refl}
use mathlib.Core.Logic.{◌↔◌}
use mathlib.Core.Bool.{Bool, true, false, ◌&&◌}
use mathlib.Core.List.{List, [], ◌∷◌}
use mathlib.Core.Option.{Option, none, some}
use native.Mathlib.Omega.{arith}
use text.Mathlib.Text.{◌==◌ as str_eq}
use text.Mathlib.TextEquality.{eq_iff}
use tt_aiops_platform.Prelude.Tests.{ltb, eqb, eqb_iff, if◌then◌else◌}

pub record Eq {ℓ} (K : Type ℓ) : Type ℓ where
  pub beq : K → K → Bool
  pub beq_iff : (a b : K) → (beq a b ≡ true) ↔ (a ≡ b)

infix 50 ◌==◌
abbrev pub ◌==◌ {ℓ} : {K : Type ℓ} ⦃e : Eq K⦄ → K → K → Bool
◌==◌ ⦃e⦄ = e.beq

instance abbrev pub string_eq : Eq String
string_eq = record { beq = str_eq; beq_iff = eq_iff }

instance abbrev pub nat_eq : Eq ℕ
nat_eq = record { beq = eqb; beq_iff = eqb_iff }

-- Equality of three texts, as of a composite key.
abbrev pub triple_beq : String × String × String → String × String × String → Bool
triple_beq a b = str_eq a.0 b.0 && (str_eq a.1 b.1 && str_eq a.2 b.2)

pub triple_beq_iff : (a b : String × String × String) → (triple_beq a b ≡ true) ↔ (a ≡ b)
triple_beq_iff a b = ground (arith, eq_iff a.0 b.0, eq_iff a.1 b.1, eq_iff a.2 b.2)

instance abbrev pub triple_eq : Eq (String × String × String)
triple_eq = record { beq = triple_beq; beq_iff = triple_beq_iff }

abbrev pub pair_beq : ℕ × ℕ → ℕ × ℕ → Bool
pair_beq a b = eqb a.0 b.0 && eqb a.1 b.1

pub pair_beq_iff : (a b : ℕ × ℕ) → (pair_beq a b ≡ true) ↔ (a ≡ b)
pair_beq_iff a b = ground (arith, eqb_iff a.0 b.0, eqb_iff a.1 b.1)

instance abbrev pub pair_eq : Eq (ℕ × ℕ)
pair_eq = record { beq = pair_beq; beq_iff = pair_beq_iff }

-- Equality of optional texts.
abbrev pub opt_eq : Option String → Option String → Bool
opt_eq none none = true
opt_eq (some a) (some b) = str_eq a b
opt_eq _ _ = false

pub opt_eq_iff : (a b : Option String) → (opt_eq a b ≡ true) ↔ (a ≡ b)
opt_eq_iff none none = ground arith
opt_eq_iff none (some b) = ground arith
opt_eq_iff (some a) none = ground arith
opt_eq_iff (some a) (some b) = ground (arith, eq_iff a b)

-- The code points of a text. Comparing texts by code points is comparing their UTF-8 bytes.
abbrev pub codes : String → List ℕ
codes String.[] = []
codes (String.◌∷◌ c s) = code c ∷ codes s

abbrev pub lex_lt : List ℕ → List ℕ → Bool
lex_lt [] [] = false
lex_lt [] (b ∷ bs) = true
lex_lt (a ∷ as') [] = false
lex_lt (a ∷ as') (b ∷ bs) =
    let rest = lex_lt as' bs in if ltb a b then true else if eqb a b then rest else false

-- `a < b` on `String`.
unfoldable pub str_lt : String → String → Bool
str_lt a b = lex_lt (codes a) (codes b)

lex_lt_asymm : (a b : List ℕ) → lex_lt a b ≡ true → lex_lt b a ≡ false
lex_lt_asymm [] [] h = refl
lex_lt_asymm [] (b ∷ bs) h = refl
lex_lt_asymm (a ∷ as') [] h = cc
lex_lt_asymm (a ∷ as') (b ∷ bs) h = ground (arith, lex_lt_asymm as' bs)

lex_le_trans : (a b c : List ℕ) → lex_lt b a ≡ false → lex_lt c b ≡ false → lex_lt c a ≡ false
lex_le_trans [] b [] h k = refl
lex_le_trans [] [] (c ∷ cs) h k = refl
lex_le_trans [] (b ∷ bs) (c ∷ cs) h k = refl
lex_le_trans (a ∷ as') [] c h k = cc
lex_le_trans (a ∷ as') (b ∷ bs) [] h k = cc
lex_le_trans (a ∷ as') (b ∷ bs) (c ∷ cs) h k = ground (arith, lex_le_trans as' bs cs)

pub str_lt_asymm : (a b : String) → str_lt a b ≡ true → str_lt b a ≡ false
unfolding str_lt
str_lt_asymm a b h = lex_lt_asymm (codes a) (codes b) h

pub str_le_trans : (a b c : String) → str_lt b a ≡ false → str_lt c b ≡ false → str_lt c a ≡ false
unfolding str_lt
str_le_trans a b c h k = lex_le_trans (codes a) (codes b) (codes c) h k
