-- ===== src/Padding/RoundTrip.antt =====
-- Padding is undone by unpadding, and unpadding accepts nothing but padded data.
use native.Mathlib.Decide.{dec_lt}
use native.Mathlib.Nat.{mod-lt, mod-add-mod, mod_self, mod-eq_of_lt, mod-eq-sub-mod, zero-add}
use go_doubleratchet.Base.{
  ℕ, zero, suc, ◌+◌, ◌-◌, ◌%◌, ◌≤◌, ◌<◌, ◌≡◌, refl, ap, true, [], ◌∷◌, ◌++◌, Bytes, length, get_or,
  take, drop, replicate, ok, arith, length-append, length-replicate, take-append, drop-append,
  length-take, length-drop, ◌∙◌,
}
use go_doubleratchet.Padding.{pkcs7_pad, pkcs7_unpad, all_eqb}

all_eqb-replicate : (n v : ℕ) → all_eqb v (replicate n v) ≡ true
unfolding all_eqb
all_eqb-replicate zero v = refl
all_eqb-replicate (suc n) v = ground (arith, all_eqb-replicate n v)

eq-replicate_of_all_eqb : (v : ℕ) (xs : Bytes) → all_eqb v xs ≡ true → xs ≡ replicate (length xs) v
unfolding all_eqb
eq-replicate_of_all_eqb v [] h = refl
eq-replicate_of_all_eqb v (x ∷ xs) h = ground (arith, eq-replicate_of_all_eqb v xs)

get_or-replicate : (n v i : ℕ) → i < n → get_or (replicate n v) i 0 ≡ v
get_or-replicate zero v i h = absurd (omega arith)
get_or-replicate (suc n) v zero h = refl
get_or-replicate (suc n) v (suc i) h = get_or-replicate n v i (omega arith)

get_or-append : (xs ys : Bytes) (i : ℕ) → get_or (xs ++ ys) (length xs + i) 0 ≡ get_or ys i 0
get_or-append [] ys i = ap (λ k. get_or ys k 0) (omega arith)
get_or-append (x ∷ xs) ys i =
    let e : suc (length xs) + i ≡ suc (length xs + i) = omega arith in rw e (get_or-append xs ys i)

take-append-drop : (n : ℕ) (xs : Bytes) → take n xs ++ drop n xs ≡ xs
take-append-drop zero xs = refl
take-append-drop (suc n) [] = refl
take-append-drop (suc n) (x ∷ xs) = ap (◌∷◌ x) (take-append-drop n xs)

-- The last byte of padded data, its length, and what lies before and behind the padding.
module _ (d : Bytes) (n : ℕ) (pos : 0 < n) where
  last_byte : get_or (d ++ replicate n n) (length (d ++ replicate n n) - 1) 0 ≡ n
  last_byte =
      let e : length (d ++ replicate n n) - 1 ≡ length d + (n - 1) =
        omega (arith, length-append d (replicate n n), length-replicate n n) in
      rw (e, get_or-append d (replicate n n) (n - 1)) (get_or-replicate n n (n - 1) (omega arith))

pad_amount :
    (m b : ℕ) → 0 < b → (0 < b - (m % b)) × (b - (m % b) ≤ b) × ((m + (b - (m % b))) % b ≡ 0)
pad_amount m b h = (
  omega (arith, mod-lt m h),
  omega arith,
  rw (← mod-add-mod m b (b - (m % b)))
      (let e : m % b + (b - (m % b)) ≡ b = omega (arith, mod-lt m h) in rw e (mod_self b)),
)

length-pkcs7_pad : (d : Bytes) (b : ℕ) → length (pkcs7_pad d b) ≡ length d + (b - (length d % b))
unfolding pkcs7_pad
length-pkcs7_pad d b = omega (
  arith,
  length-append d (replicate (b - (length d % b)) ((b - (length d % b)) % 256)),
  length-replicate (b - (length d % b)) ((b - (length d % b)) % 256),
)

-- For a block size above 0, padding fills up to a whole number of blocks, and adds from one byte to
-- one block.
pub length-pkcs7_pad_bounds :
    (d : Bytes) (b : ℕ)
    → 0 < b
    → (length (pkcs7_pad d b) % b ≡ 0)
      × (length d < length (pkcs7_pad d b))
      × (length (pkcs7_pad d b) ≤ length d + b)
length-pkcs7_pad_bounds d b h = rw (length-pkcs7_pad d b) (
  (pad_amount (length d) b h).2,
  omega (arith, pad_amount (length d) b h),
  omega (arith, pad_amount (length d) b h),
)

-- The unpadding of data that ends in `n` times the byte `n`.
unpad_of_tail :
    (d : Bytes) (n b : ℕ)
    → 0 < n
    → n ≤ b
    → n < 256
    → length (d ++ replicate n n) % b ≡ 0
    → pkcs7_unpad (d ++ replicate n n) b ≡ ok d
unfolding pkcs7_unpad
unpad_of_tail d n b pos le byte whole =
    let l : length (d ++ replicate n n) ≡ length d + n =
      omega (arith, length-append d (replicate n n), length-replicate n n) in
    let s : length (d ++ replicate n n) - n ≡ length d = omega arith in
    rw
      (
        last_byte d n pos,
        s,
        drop-append (length d) d (replicate n n) refl,
        take-append (length d) d (replicate n n) refl,
        mod-eq_of_lt byte,
        all_eqb-replicate n n,
      )
      (ground arith)

-- For block sizes from 1 to 255, unpadding gives back exactly the data that was padded.
pub pkcs7_unpad-pkcs7_pad :
    (d : Bytes) (b : ℕ) → 0 < b → b < 256 → pkcs7_unpad (pkcs7_pad d b) b ≡ ok d
unfolding pkcs7_pad
pkcs7_unpad-pkcs7_pad d b h small =
    let n = b - (length d % b) in
    let (pos, le, whole) = pad_amount (length d) b h in
    let byte : n % 256 ≡ n = mod-eq_of_lt (omega arith) in
    let l : length (d ++ replicate n n) ≡ length d + n =
      omega (arith, length-append d (replicate n n), length-replicate n n) in
    rw byte (unpad_of_tail d n b pos le (omega arith) (rw l whole))

unpad_parts :
    (d x : Bytes) (b : ℕ)
    → pkcs7_unpad d b ≡ ok x
    → let n = get_or d (length d - 1) 0 in
      (0 < n)
      × (n ≤ b)
      × (0 < length d)
      × (length d % b ≡ 0)
      × (x ≡ take (length d - n) d)
      × (drop (length d - n) d ≡ replicate (length (drop (length d - n) d)) (n % 256))
unfolding pkcs7_unpad
unpad_parts d x b h =
    let n = get_or d (length d - 1) 0 in
    ground (arith, eq-replicate_of_all_eqb (n % 256) (drop (length d - n) d))

-- What is cut off a whole number of blocks is what padding the rest adds.
pad_amount_of_rest :
    (l n b : ℕ) → 0 < n → n ≤ b → 0 < l → l % b ≡ 0 → (n ≤ l) × (b - ((l - n) % b) ≡ n)
pad_amount_of_rest l n b pos le some_ whole =
    let enough : b ≤ l = elim (dec_lt l b) [
      | yes short ↦ absurd (omega (arith, mod-eq_of_lt short))
      | no long ↦ omega arith
    ] in
    let split : l - n ≡ (l - b) + (b - n) = omega arith in
    let low : (l - b) % b ≡ 0 = rw (← mod-eq-sub-mod enough) whole in
    let rest : (l - n) % b ≡ b - n =
      rw (split, ← mod-add-mod (l - b) b (b - n), low, zero-add) (mod-eq_of_lt (omega arith)) in
    (omega arith, omega arith)

-- Unpadding accepts nothing but padded data: for block sizes below 256, what it returns pads to its input again.
pub pkcs7_pad-pkcs7_unpad :
    (d x : Bytes) (b : ℕ) → b < 256 → pkcs7_unpad d b ≡ ok x → pkcs7_pad x b ≡ d
unfolding pkcs7_pad
pkcs7_pad-pkcs7_unpad d x b small h =
    let n = get_or d (length d - 1) 0 in
    let (pos, le, nonempty, whole, front, back) = unpad_parts d x b h in
    let (fits, amount) = pad_amount_of_rest (length d) n b pos le nonempty whole in
    let lx : length (take (length d - n) d) ≡ length d - n =
      omega (arith, length-take (length d - n) d) in
    let lb : length (drop (length d - n) d) ≡ n = omega (arith, length-drop (length d - n) d) in
    let tail : drop (length d - n) d ≡ replicate n (n % 256) =
      back ∙ ap (λ k. replicate k (n % 256)) lb in
    rw (front, lx, amount, ← tail) (take-append-drop (length d - n) d)
