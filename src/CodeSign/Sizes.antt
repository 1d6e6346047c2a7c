-- ===== src/CodeSign/Sizes.antt =====
-- The sizes and the rounding of code_sign.rs.
use hap_resigner.Prelude.{
  ℕ, ◌+◌, ◌-◌, ◌*◌, ◌/◌, ◌%◌, ◌^◌, ◌≤◌, ◌<◌, ◌≡◌, arith, none, some, ◌++◌, Result, ok, err, ◌>>=◌,
  ok_or, Bytes, to_le, checked_add, u32_try_from,
}
use hap_resigner.SignErrors.{CodeSignError}

abbrev pub fsverity_block_size : ℕ
fsverity_block_size = 4096

abbrev pub sha256_size : ℕ
sha256_size = 32

-- `round_up` on `usize` and `round_up_u64` on `u64` are the same function on 64-bit numbers.
unfoldable pub round_up : ℕ → ℕ → Result CodeSignError ℕ
round_up value alignment = elim (checked_add value (alignment - 1)) [
  | some sum ↦ ok (sum / alignment * alignment)
  | none ↦ err CodeSignError.size_limit
]

unfoldable pub put_u32 : Bytes → ℕ → Result CodeSignError Bytes
put_u32 output value = do
  word ← ok_or (u32_try_from value) CodeSignError.size_limit
  ok (output ++ to_le 4 word)

-- Where `round_up` to a page returns, it returns the least multiple of 4096 that is not below the
-- value.
pub round_up_page :
    (value : ℕ) {r : ℕ}
    → round_up value 4096 ≡ ok r
    → (value ≤ r) × (r < value + 4096) × (r % 4096 ≡ 0)
unfolding round_up
round_up_page value h = ground arith

pub round_up_fits :
    (value : ℕ) → value + 4095 < 2 ^ 64 → round_up value 4096 ≡ ok ((value + 4095) / 4096 * 4096)
unfolding round_up
round_up_fits value h = ground arith
