-- ===== src/Base/Actions.antt =====
-- What a Rust function gives back: a value, an `Err` of `anyhow::Result`, or a panic, which no
-- `match` on the result catches. `Action` adds a state that an error or a panic keeps.
use mathlib.Core.Bool.{Bool, true, false}
use Prim.Native.Nat.{ℕ}

-- The `bail!` sites, with the numbers that their messages print.
pub data Error : Type 0 where
  -- an error of the serial port, the USB library or the host
  io : ℕ → Error
  no_response sync_lost : Error
  crc_mismatch : ℕ → ℕ → Error
  -- a response whose status is not `STATUS_OK`
  bad_status : ℕ → Error
  bad_header : ℕ → Error
  short_data : ℕ → Error
  bad_width : ℕ → Error
  bad_magic : ℕ → Error
  bad_checksum : ℕ → ℕ → Error
  no_space already_exists wrong_type too_large name_length : Error
  timed_out bad_signature out_of_range cancelled unsupported not_found : Error

pub data Outcome {ℓ} (A : Type ℓ) : Type ℓ where
  ok : A → Outcome A
  err : Error → Outcome A
  panic : Outcome A

abbrev pub Action {ℓ} : Type ℓ → Type ℓ → Type ℓ
Action S A = S → Outcome A × S

-- The rest of a block, after an outcome.
abbrev pub continue {ℓ} : {S A B : Type ℓ} → Outcome A → (A → Action S B) → Action S B
continue (ok a) f s = f a s
continue (err e) f s = (err e, s)
continue panic f s = (panic, s)

infixl 5 ◌>>=◌ ◌>>◌
abbrev pub ◌>>=◌ {ℓ} : {S A B : Type ℓ} → Action S A → (A → Action S B) → Action S B
◌>>=◌ m f s = continue (m s).0 f (m s).1

abbrev pub ◌>>◌ {ℓ} : {S A B : Type ℓ} → Action S A → Action S B → Action S B
m >> k = m >>= λ _. k

abbrev pub pure {ℓ} : {S A : Type ℓ} → A → Action S A
pure a s = (ok a, s)

abbrev pub bail {ℓ} : {S A : Type ℓ} → Error → Action S A
bail e s = (err e, s)

-- A condition that must hold, or the function bails.
abbrev pub ensure {ℓ} : {S : Type ℓ} → Bool → Error → Action S Unit
ensure true e s = (ok tt, s)
ensure false e s = (err e, s)

abbrev pub lift {ℓ} : {S A : Type ℓ} → Outcome A → Action S A
lift r s = (r, s)
