-- ===== src/Fifo/Buffer.antt =====
-- The buffer as the bytes that are still unread.
use fpga_emmc_card_reader.Base.{
  ℕ, zero, suc, ◌+◌, ◌-◌, ◌≤◌, min, [], ◌∷◌, ◌++◌, ◌≡◌, refl, sym, ap, ◌∙◌, arith, ◌==◌, Bool-cases,
  inl, inr, length, length-drop, take, drop, take-min, drop_all, drop-drop, slice, Bytes,
  append-nil,
}
use fpga_emmc_card_reader.Fifo.{FifoTransport, consume_buffered, add_bytes}

abbrev pub unread : {U : Type 0} → FifoTransport U → Bytes
unread s = drop s.read_pos s.read_buf

-- `from_here` is what a call made of the state `s`, when it took `len` unread bytes at most.
pub record Consumed {U : Type 0} (len : ℕ) (s : FifoTransport U)
    (from_here : Bytes × FifoTransport U) : Type 0 where
  pub got : from_here.0 ≡ take len (unread s)
  pub left : unread from_here.1 ≡ drop len (unread s)
  pub same_bus : from_here.1.bus ≡ s.bus
  pub same_timeout : from_here.1.timeout ≡ s.timeout
  pub inside : from_here.1.read_pos ≤ length from_here.1.read_buf

no_bytes : (xs : Bytes) → length xs ≡ 0 → xs ≡ []
no_bytes [] h = refl
no_bytes (x ∷ xs) h = absurd (omega arith)

take_nil : (n : ℕ) → take {A = ℕ} n [] ≡ []
take_nil zero = refl
take_nil (suc n) = refl

drop_nil : (n : ℕ) → drop {A = ℕ} n [] ≡ []
drop_nil zero = refl
drop_nil (suc n) = refl

-- `consume_buffered` gives the next unread bytes, up to the number asked for, keeps the rest, and
-- touches nothing but the buffer.
pub consume_buffered-Consumed :
    {U : Type 0} (len : ℕ) (s : FifoTransport U)
    → s.read_pos ≤ length s.read_buf
    → Consumed len s (consume_buffered len s)
unfolding consume_buffered
consume_buffered-Consumed len s h =
    let pos = s.read_pos in
    let buf = s.read_buf in
    let n = min len (length buf - pos) in
    let size : length (unread s) ≡ length buf - pos = length-drop pos buf in
    let moved : slice pos (pos + n) buf ≡ take len (unread s) =
      ap (λ (k : ℕ). take k (unread s)) (omega (arith, size)) ∙ take-min len (unread s) in
    elim (Bool-cases (length buf - pos == 0)) [
      | inl e ↦
          let none_left : unread s ≡ [] = no_bytes (unread s) (ground (arith, size)) in
          rw e (record {
            got = sym (ap (take len) none_left ∙ take_nil len);
            left = none_left ∙ sym (ap (drop len) none_left ∙ drop_nil len);
            same_bus = refl;
            same_timeout = refl;
            inside = h;
          })
      | inr e ↦ elim (Bool-cases (pos + n == length buf)) [
        | inl e' ↦
            rw (e, e')
              (record {
                got = moved;
                left = sym (drop_all len (unread s) (ground (arith, size)));
                same_bus = refl;
                same_timeout = refl;
                inside = omega arith;
              })
        | inr e' ↦
            rw (e, e')
              (record {
                got = moved;
                left =
                    sym (drop-drop n pos (pos + n) buf refl)
                    ∙ ap (λ (k : ℕ). drop k (unread s)) (ground arith);
                same_bus = refl;
                same_timeout = refl;
                inside = omega (arith, size);
              })
      ]
    ]

-- `fill_buffer` puts the new bytes behind the unread ones.
pub unread-add_bytes :
    {U : Type 0} (bytes : Bytes) (s : FifoTransport U)
    → unread (add_bytes bytes s) ≡ unread s ++ bytes
unfolding add_bytes
unread-add_bytes [] s = sym (append-nil (unread s))
unread-add_bytes (b ∷ bytes) s = refl

-- It keeps the bus and the timeout, and the reading place inside the buffer.
pub add_bytes-bus :
    {U : Type 0} (bytes : Bytes) (s : FifoTransport U) → (add_bytes bytes s).bus ≡ s.bus
unfolding add_bytes
add_bytes-bus [] s = refl
add_bytes-bus (b ∷ bytes) s = refl

pub add_bytes-timeout :
    {U : Type 0} (bytes : Bytes) (s : FifoTransport U) → (add_bytes bytes s).timeout ≡ s.timeout
unfolding add_bytes
add_bytes-timeout [] s = refl
add_bytes-timeout (b ∷ bytes) s = refl

pub add_bytes-inside :
    {U : Type 0} (bytes : Bytes) (s : FifoTransport U)
    → s.read_pos ≤ length s.read_buf
    → (add_bytes bytes s).read_pos ≤ length (add_bytes bytes s).read_buf
unfolding add_bytes
add_bytes-inside [] s h = h
add_bytes-inside (b ∷ bytes) s h = omega arith
