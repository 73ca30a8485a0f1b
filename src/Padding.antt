-- ===== src/Padding.antt =====
-- internal/padding/padding.go: PKCS#7 padding. A `byte(n)` is `n % 256`.
pub mod RoundTrip
use go_doubleratchet.Base.{
  ℕ, zero, suc, ◌+◌, ◌-◌, ◌%◌, Bool, true, false, ◌||◌, List, [], ◌∷◌, ◌++◌, Bytes, length, get_or,
  take, drop, replicate, Result, ok, err, empty_data, invalid_block_size, invalid_padding,
  invalid_padding_val, ltb, nat_eqb, not, if◌then◌else◌,
}

unfoldable pub pkcs7_pad : Bytes → ℕ → Bytes
pkcs7_pad data_ block_size =
    let padding = block_size - (length data_ % block_size) in
    data_ ++ replicate padding (padding % 256)

-- The loop over the last bytes: each of them is the padding byte.
unfoldable pub all_eqb : ℕ → Bytes → Bool
all_eqb v [] = true
all_eqb v (x ∷ xs) = if nat_eqb x v then all_eqb v xs else false

unfoldable pub pkcs7_unpad : Bytes → ℕ → Result Bytes
pkcs7_unpad data_ block_size =
    let padding = get_or data_ (length data_ - 1) 0 in
    let start = length data_ - padding in
    if nat_eqb (length data_) 0
    then err empty_data
    else (if not (nat_eqb (length data_ % block_size) 0)
        then err invalid_block_size
        else (if nat_eqb padding 0 || ltb block_size padding
            then err invalid_padding
            else (if not (all_eqb (padding % 256) (drop start data_))
                then err invalid_padding_val
                else ok (take start data_))))
