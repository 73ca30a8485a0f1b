-- ===== src/Base/Outcome.antt =====
-- The results of the library's functions, and operations on a state that may fail halfway.
use mathlib.Core.Path.{◌≡◌, refl, ap}
use mathlib.Core.Bool.{Bool, true, false}

-- The error values of errors.go, config.go and of the internal packages. `external` is an error that
-- comes from a package outside the repository (crypto/rand, curve25519, hkdf, aes).
pub data Error : Type 0 where
  invalid_input : Error
  shared_secret_too_short : Error
  nil_provider : Error
  nil_scka_header : Error
  max_skip_exceeded : Error
  skipped_key_not_found : Error
  auth_failure : Error
  invalid_transition : Error
  session_not_initialized : Error
  epoch_mismatch : Error
  config_nil : Error
  config_max_skip_too_large : Error
  config_identity_keys_incomplete : Error
  max_skip_too_large : Error
  invariant_violation : Error
  low_order_point : Error
  root_key_too_short : Error
  empty_data : Error
  invalid_block_size : Error
  invalid_padding : Error
  invalid_padding_val : Error
  ciphertext_short : Error
  ciphertext_len_invalid : Error
  auth_failed : Error
  invalid_header_key : Error
  invalid_nonce_counter : Error
  zero_shared_secret : Error
  invalid_public_key : Error
  invalid_spk_signature : Error
  one_time_prekey_missing : Error
  invalid_pq_pre_key_signature : Error
  unsupported_kem_params : Error
  kem_params_mismatch : Error
  external : Error

-- What a call comes to: a value, an error, or no return at all.
pub data Result {ℓ} (A : Type ℓ) : Type ℓ where
  ok : A → Result A
  err : Error → Result A
  diverges : Result A

abbrev pub bind {ℓ κ} : {A : Type ℓ} {B : Type κ} → Result A → (A → Result B) → Result B
bind (ok a) f = f a
bind (err e) f = err e
bind diverges f = diverges

abbrev value_or {ℓ} : {A : Type ℓ} → A → Result A → A
value_or d (ok a) = a
value_or d (err _) = d
value_or d diverges = d

pub ok-injective {ℓ} : {A : Type ℓ} (a b : A) → ok a ≡ ok b → a ≡ b
ok-injective a b h = ap (value_or a) h

-- What a successful chain says of its first part.
pub bind-eq-ok {ℓ κ} :
    {A : Type ℓ} {B : Type κ} (r : Result A) (f : A → Result B) {b : B}
    → bind r f ≡ ok b
    → (a : A) × (r ≡ ok a) × (f a ≡ ok b)
bind-eq-ok (ok a) f h = (a, refl, h)
bind-eq-ok (err e) f h = cc
bind-eq-ok diverges f h = cc

-- `if bad { return e }`
abbrev pub check : Bool → Error → Result (Unit {0})
check true e = err e
check false e = ok tt

-- A method of an object: it returns its outcome and leaves the object in a new state, also when it
-- fails.
abbrev pub Method : Type 0 → Type 0 → Type 0
Method S A = S → Result A × S

abbrev pub pure : {S A : Type 0} → A → Method S A
pure a s = (ok a, s)

abbrev pub fail : {S A : Type 0} → Error → Method S A
fail e s = (err e, s)

-- A call that does not touch the object.
abbrev pub lift : {S A : Type 0} → Result A → Method S A
lift r s = (r, s)

abbrev pub get : {S : Type 0} → Method S S
get s = (ok s, s)

abbrev pub modify : {S : Type 0} → (S → S) → Method S (Unit {0})
modify f s = (ok tt, f s)

-- The rest of a method, after the outcome and the state of its first part.
abbrev pub continue : {S A B : Type 0} → Result A → S → (A → Method S B) → Result B × S
continue (ok a) s f = f a s
continue (err e) s f = (err e, s)
continue diverges s f = (diverges, s)

-- What a successful method says of its first part.
pub continue-eq-ok :
    {S A B : Type 0} (r : Result A) (s : S) (f : A → Method S B) {b : B}
    → (continue r s f).0 ≡ ok b
    → (a : A) × (r ≡ ok a) × ((f a s).0 ≡ ok b) × (continue r s f ≡ f a s)
continue-eq-ok (ok a) s f h = (a, refl, h, refl)
continue-eq-ok (err e) s f h = cc
continue-eq-ok diverges s f h = cc

infixl 5 ◌>>=◌ ◌>>◌
abbrev pub ◌>>=◌ : {S A B : Type 0} → Method S A → (A → Method S B) → Method S B
◌>>=◌ m f s = continue (m s).0 (m s).1 f

abbrev pub ◌>>◌ : {S B : Type 0} → Method S (Unit {0}) → Method S B → Method S B
m >> k = m >>= λ _. k

-- `if err != nil { return e }` where the error is replaced by another.
abbrev pub or_error : {A : Type 0} → Error → Result A → Result A
or_error e (ok a) = ok a
or_error e (err _) = err e
or_error e diverges = diverges
