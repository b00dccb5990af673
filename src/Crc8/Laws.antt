-- ===== src/Crc8/Laws.antt =====
-- What the checksum promises: it stays a byte, it is checked by running it over itself, and it
-- tells apart any two messages that differ within one byte.
use fpga_emmc_card_reader.Base.{
  ℕ, zero, suc, ◌+◌, ◌/◌, ◌%◌, ◌<◌, bit_xor, Bool, true, false, ◌&&◌, [], ◌∷◌, ◌++◌, ◌≡◌, ◌≢◌, refl,
  sym, ap, ◌∙◌, arith, if◌then◌else◌, ◌==◌, ==_iff, iterate, Bytes, IsBytes, ltb, ltb→lt,
}
use fpga_emmc_card_reader.Base.Bits.Xor.{
  bit_xor_self, bit_xor-lt, bit_xor_cancel, bit_xor_cancel_left,
}
use fpga_emmc_card_reader.Crc8.{crc8_bit, crc8_byte, crc8_from, crc8}

pub crc8_from-append :
    (crc : ℕ) (xs ys : Bytes) → crc8_from crc (xs ++ ys) ≡ crc8_from (crc8_from crc xs) ys
unfolding crc8_from
crc8_from-append crc [] ys = refl
crc8_from-append crc (x ∷ xs) ys = crc8_from-append (crc8_byte crc x) xs ys

both : (a b : Bool) → (a && b) ≡ true → (a ≡ true) × (b ≡ true)
both true b h = (refl, h)
both false b h = cc

-- A check of every byte by evaluation.
passes : (ℕ → Bool) → ℕ → Bool
passes test zero = true
passes test (suc count) = passes test count && test count

passes-at :
    (test : ℕ → Bool) (count : ℕ) → passes test count ≡ true → (x : ℕ) → x < count → test x ≡ true
unfolding passes
passes-at test zero all_passed x below = absurd (omega arith)
passes-at test (suc count) all_passed x below =
    let (earlier, now) = both (passes test count) (test count) all_passed in
    ground (arith, now, passes-at test count earlier x)

-- The round taken back.
unbit : ℕ → ℕ
unbit x = if x % 2 == 0 then x / 2 else bit_xor x 0x07 / 2 + 0x80

rounds : ℕ → ℕ
unfolding crc8_bit
rounds x = iterate 8 crc8_bit x

unrounds : ℕ → ℕ
unfolding unbit
unrounds x = iterate 8 unbit x

unrounds_table : passes (λ x. (unrounds (rounds x) == x) && ltb (rounds x) 256) 256 ≡ true
unfolding passes unrounds rounds
unrounds_table = refl

unrounds-rounds : (x : ℕ) → x < 256 → (unrounds (rounds x) ≡ x) × (rounds x < 256)
unrounds-rounds x h =
    let parts = both _ _ (passes-at _ 256 unrounds_table x h) in
    ((==_iff _ x).0 parts.0, ltb→lt _ _ parts.1)

crc8_byte-rounds : (crc byte : ℕ) → crc8_byte crc byte ≡ rounds (bit_xor crc byte)
unfolding crc8_byte rounds
crc8_byte-rounds crc byte = refl

pub crc8_byte-lt : (crc byte : ℕ) → crc < 256 → byte < 256 → crc8_byte crc byte < 256
crc8_byte-lt crc byte h k =
    rw (crc8_byte-rounds crc byte) (unrounds-rounds _ (bit_xor-lt 8 crc byte h k)).1

pub crc8_from-lt : (crc : ℕ) (xs : Bytes) → crc < 256 → IsBytes xs → crc8_from crc xs < 256
unfolding crc8_from
crc8_from-lt crc [] h k = h
crc8_from-lt crc (x ∷ xs) h k = crc8_from-lt (crc8_byte crc x) xs (crc8_byte-lt crc x h k.0) k.1

pub crc8-lt : (xs : Bytes) → IsBytes xs → crc8 xs < 256
unfolding crc8
crc8-lt xs h = crc8_from-lt 0 xs (omega arith) h

-- The mixed value can be had back from the checksum after it.
crc8_byte_injective :
    (crc byte crc' byte' : ℕ)
    → crc < 256
    → byte < 256
    → crc' < 256
    → byte' < 256
    → crc8_byte crc byte ≡ crc8_byte crc' byte'
    → bit_xor crc byte ≡ bit_xor crc' byte'
crc8_byte_injective crc byte crc' byte' a b c d e =
    let one = (unrounds-rounds _ (bit_xor-lt 8 crc byte a b)).0 in
    let other = (unrounds-rounds _ (bit_xor-lt 8 crc' byte' c d)).0 in
    let same : rounds (bit_xor crc byte) ≡ rounds (bit_xor crc' byte') =
      sym (crc8_byte-rounds crc byte) ∙ e ∙ crc8_byte-rounds crc' byte' in
    sym one ∙ ap unrounds same ∙ other

crc8_from_injective :
    (xs : Bytes) (crc crc' : ℕ)
    → IsBytes xs
    → crc < 256
    → crc' < 256
    → crc8_from crc xs ≡ crc8_from crc' xs
    → crc ≡ crc'
unfolding crc8_from
crc8_from_injective [] crc crc' h a b e = e
crc8_from_injective (x ∷ xs) crc crc' h a b e =
    let next =
      crc8_from_injective xs (crc8_byte crc x) (crc8_byte crc' x) h.1 (crc8_byte-lt crc x a h.0)
        (crc8_byte-lt crc' x b h.0) e in
    let mixed = crc8_byte_injective crc x crc' x a h.0 b h.0 next in
    sym (bit_xor_cancel crc x) ∙ ap (λ (t : ℕ). bit_xor t x) mixed ∙ bit_xor_cancel crc' x

-- A message followed by its own checksum has the checksum 0.
pub crc8-append_self : (xs : Bytes) → crc8 (xs ++ crc8 xs ∷ []) ≡ 0
unfolding crc8
crc8-append_self xs = crc8_from-append 0 xs (crc8_from 0 xs ∷ []) ∙ last (crc8_from 0 xs)
  where
    last : (c : ℕ) → crc8_from c (c ∷ []) ≡ 0
    last c = unfold crc8_from in rw (bit_xor_self c)

same_byte :
    (xs : Bytes) (a b : ℕ) (ys : Bytes)
    → IsBytes xs
    → a < 256
    → b < 256
    → IsBytes ys
    → crc8 (xs ++ a ∷ ys) ≡ crc8 (xs ++ b ∷ ys)
    → a ≡ b
unfolding crc8
same_byte xs a b ys hx ha hb hy e =
    let c = crc8_from 0 xs in
    let hc : c < 256 = crc8_from-lt 0 xs (omega arith) hx in
    let split : crc8_from (crc8_byte c a) ys ≡ crc8_from (crc8_byte c b) ys =
      unfold crc8_from in
      sym (crc8_from-append 0 xs (a ∷ ys)) ∙ e ∙ crc8_from-append 0 xs (b ∷ ys) in
    let next =
      crc8_from_injective ys (crc8_byte c a) (crc8_byte c b) hy (crc8_byte-lt c a hc ha)
        (crc8_byte-lt c b hc hb) split in
    let mixed = crc8_byte_injective c a c b hc ha hc hb next in
    sym (bit_xor_cancel_left c a) ∙ ap (λ (t : ℕ). bit_xor c t) mixed ∙ bit_xor_cancel_left c b

-- Two messages of bytes that differ in one byte only have different checksums.
pub crc8_detects_byte :
    (xs : Bytes) (a b : ℕ) (ys : Bytes)
    → IsBytes xs
    → a < 256
    → b < 256
    → IsBytes ys
    → a ≢ b
    → crc8 (xs ++ a ∷ ys) ≢ crc8 (xs ++ b ∷ ys)
crc8_detects_byte xs a b ys hx ha hb hy ne e = ne (same_byte xs a b ys hx ha hb hy e)
