-- ===== src/Base/Try.antt =====
-- `?` in functions that keep no state: chains of outcomes. A slice out of range panics.
use fpga_emmc_card_reader.Base.Actions.{Outcome, ok, err, panic, Error}
use fpga_emmc_card_reader.Base.Tests.{leb, if◌then◌else◌}
use fpga_emmc_card_reader.Base.Lists.{length, slice}
use Prim.Native.Nat.{ℕ}
use mathlib.Core.Path.{◌≡◌, refl}
use mathlib.Core.List.{List}
use mathlib.Core.Bool.{Bool, true, false, ◌&&◌}

infixl 5 ◌>>=◌ ◌>>◌
abbrev pub ◌>>=◌ {ℓ κ} : {X : Type ℓ} {Y : Type κ} → Outcome X → (X → Outcome Y) → Outcome Y
panic >>= rest = panic
err e >>= rest = err e
ok x >>= rest = rest x

abbrev pub ◌>>◌ {ℓ κ} : {X : Type ℓ} {Y : Type κ} → Outcome X → Outcome Y → Outcome Y
first >> second = first >>= λ _. second

-- A condition that must hold, or the function bails.
abbrev pub ensure : Bool → Error → Outcome (Unit {0})
ensure false e = err e
ensure true e = ok tt

-- A condition without which the function panics.
abbrev pub assert : Bool → Outcome (Unit {0})
assert true = ok tt
assert false = panic

-- `&xs[lo..hi]`.
abbrev pub slice? {ℓ} : {A : Type ℓ} → ℕ → ℕ → List A → Outcome (List A)
slice? lo hi xs = if leb lo hi && leb hi (length xs) then ok (slice lo hi xs) else panic

-- A chain that succeeds has a first part that does.
pub >>=-eq-ok {ℓ κ} :
    {X : Type ℓ} {Y : Type κ} (first : Outcome X) (rest : X → Outcome Y) {y : Y}
    → first >>= rest ≡ ok y
    → (x : X) × (first ≡ ok x) × (rest x ≡ ok y)
>>=-eq-ok panic rest h = cc
>>=-eq-ok (err e) rest h = cc
>>=-eq-ok (ok x) rest h = (x, refl, h)
