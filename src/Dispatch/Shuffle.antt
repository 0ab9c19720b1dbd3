-- ===== src/Dispatch/Shuffle.antt =====
-- crates/api/src/livemap.rs: `xorshift` and `shuffle`, for the fair comparison of matchings. A state
-- is a 64-bit number.
pub mod Kept
use Prim.Native.Nat.{bit_xor}
use tt_aiops_platform.Prelude.{
  ℕ, zero, suc, ◌+◌, ◌-◌, ◌*◌, ◌/◌, ◌%◌, Option, none, some, List, [], ◌∷◌, length, get_elem?, set,
}

abbrev pub word : ℕ
word = 18446744073709551616

-- `x << k` is `x * 2 ^ k` without the bits above the word, `x >> k` is `x / 2 ^ k`.
unfoldable pub xorshift : ℕ → ℕ
xorshift state =
    let x = bit_xor state (state * 8192 % word) in
    let y = bit_xor x (x / 128) in bit_xor y (y * 131072 % word)

module _ {A : Type 0} where
  -- `v.swap(i, j)`
  unfoldable pub swap_at : List A → ℕ → ℕ → List A
  swap_at v i j = elim (get_elem? v i) [
    | none ↦ v
    | some a ↦ elim (get_elem? v j) [ none ↦ v | some b ↦ set (set v i b) j a ]
  ]

  -- The loop from `i` down to 1.
  unfoldable pub shuffle_from : ℕ → List A → ℕ → List A × ℕ
  shuffle_from zero v rng = (v, rng)
  shuffle_from (suc i) v rng =
      let x = xorshift rng in shuffle_from i (swap_at v (suc i) (x % (suc i + 1))) x

  unfoldable pub shuffle : List A → ℕ → List A × ℕ
  unfolding shuffle_from swap_at
  shuffle v rng = shuffle_from (length v - 1) v rng
