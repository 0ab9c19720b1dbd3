-- ===== src/TosAvail/Texts.antt =====
-- crates/extractor/src/tos_avail.rs: `clean`, and the readings of texts in `parse_myt` and
-- `parse_fetch`, with what they use of the standard library.
use Prim.Native.Char.{code}
use tt_aiops_platform.Prelude.{
  ℕ, zero, suc, ◌+◌, ◌-◌, ◌*◌, String, Bool, true, false, ◌&&◌, ◌||◌, Option, none, some, List, [],
  ◌∷◌, if◌then◌else◌, ltb, leb, eqb, string_eq, triple_eq,
}

-- `char::is_whitespace`
abbrev pub is_whitespace : ℕ → Bool
is_whitespace n =
    (leb 9 n && leb n 13)
    || (eqb n 32
        || (eqb n 133
            || (eqb n 160
                || (eqb n 5760
                    || ((leb 8192 n && leb n 8202)
                        || (eqb n 8232
                            || (eqb n 8233 || (eqb n 8239 || (eqb n 8287 || eqb n 12288)))))))))

abbrev pub is_empty : String → Bool
is_empty String.[] = true
is_empty (String.◌∷◌ c s) = false

-- `str::trim`, at the front and at the back.
unfoldable pub trim_start : String → String
trim_start String.[] = String.[]
trim_start (String.◌∷◌ c s) =
    let rest = trim_start s in if is_whitespace (code c) then rest else String.◌∷◌ c s

unfoldable pub trim_end : String → String
trim_end String.[] = String.[]
trim_end (String.◌∷◌ c s) =
    let rest = trim_end s in
    if is_empty rest && is_whitespace (code c) then String.[] else String.◌∷◌ c rest

unfoldable pub trim : String → String
unfolding trim_start trim_end
trim s = trim_end (trim_start s)

abbrev pub bind {ℓ κ} : {A : Type ℓ} {B : Type κ} → Option A → (A → Option B) → Option B
bind none f = none
bind (some a) f = f a

abbrev pub unwrap_or : Option String → String → String
unwrap_or none d = d
unwrap_or (some s) d = s

unfoldable pub clean : Option String → Option String
unfolding trim
clean none = none
clean (some s) = let t = trim s in if is_empty t then none else some t

abbrev pub is_digit : ℕ → Bool
is_digit n = leb b'0' n && leb n b'9'

-- The first `n` numbers, if there are as many and they are digits.
unfoldable pub digits : ℕ → List ℕ → Option (List ℕ)
digits zero s = some []
digits (suc n) [] = none
digits (suc n) (c ∷ s) = elim (digits n s) [
  | none ↦ none
  | some ds ↦ if is_digit c then some (c ∷ ds) else none
]

abbrev pub drop : ℕ → List ℕ → List ℕ
drop zero s = s
drop (suc n) [] = []
drop (suc n) (c ∷ s) = drop n s

-- The number that digits write, after `n`.
abbrev pub decimal : ℕ → List ℕ → ℕ
decimal n [] = n
decimal n (c ∷ s) = decimal (n * 10 + (c - b'0')) s

abbrev pub all_digits : List ℕ → Bool
all_digits [] = true
all_digits (c ∷ s) = is_digit c && all_digits s

-- `parse::<u64>`: a sign `+` may stand first, and there must be a digit.
abbrev pub parse_digits : List ℕ → Option ℕ
parse_digits [] = none
parse_digits (c ∷ s) =
    if all_digits (c ∷ s) && ltb (decimal 0 (c ∷ s)) 18446744073709551616
    then some (decimal 0 (c ∷ s))
    else none

unfoldable pub parse_u64 : List ℕ → Option ℕ
parse_u64 [] = none
parse_u64 (c ∷ s) = if eqb c b'+' then parse_digits s else parse_digits (c ∷ s)

abbrev pub first_code : String → Option ℕ
first_code String.[] = none
first_code (String.◌∷◌ c s) = some (code c)
