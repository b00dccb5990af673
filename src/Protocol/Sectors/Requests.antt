-- ===== src/Protocol/Sectors/Requests.antt =====
-- What a write means for the card, with no link and no packets: a list of requests, each of which
-- stores some sectors.
use fpga_emmc_card_reader.Base.{
  ℕ, zero, suc, ◌+◌, ◌-◌, ◌*◌, ◌≤◌, ◌<◌, min, List, [], ◌∷◌, ◌≡◌, refl, ap, ◌∙◌, arith, ◌&&◌,
  if◌then◌else◌, ◌==◌, ltb, leb, take, drop, drop-drop, Bytes, Bool-cases, inl, inr,
}
use fpga_emmc_card_reader.Protocol.Ids.{sector_size}
use fpga_emmc_card_reader.Protocol.Sectors.{max_write_chunk}

pub record WriteRequest : Type 0 where
  pub lba : ℕ
  pub count : ℕ
  pub chunk : Bytes

-- The requests for `remaining` sectors of data from the address `lba`, sixteen at a time.
unfoldable pub write_requests : ℕ → ℕ → ℕ → Bytes → List WriteRequest
write_requests zero lba remaining data' = []
write_requests (suc fuel) lba remaining data' =
    let n = min remaining max_write_chunk in
    let now : WriteRequest = record {
      lba = lba;
      count = n;
      chunk = take (n * sector_size) data';
    } in
    let later = write_requests fuel (lba + n) (remaining - n) (drop (n * sector_size) data') in
    if remaining == 0 then [] else now ∷ later

-- The card as its sectors, by address.
abbrev pub Card : Type 0
Card = ℕ → Bytes

unfoldable pub sector_of : Bytes → ℕ → Bytes
sector_of data' k = take sector_size (drop (k * sector_size) data')

-- The card after `count` sectors from `lba` were stored.
abbrev pub stored : ℕ → ℕ → Bytes → Card → Card
stored lba count data' card a =
    if leb lba a && ltb a (lba + count) then sector_of data' (a - lba) else card a

abbrev pub apply_all : List WriteRequest → Card → Card
apply_all [] card = card
apply_all (r ∷ rs) card = apply_all rs (stored r.lba r.count r.chunk card)

take-drop-take :
    {A : Type 0} (n k m : ℕ) (xs : List A)
    → k + n ≤ m
    → take n (drop k (take m xs)) ≡ take n (drop k xs)
take-drop-take zero k m xs h = refl
take-drop-take (suc n) zero zero xs h = absurd (omega arith)
take-drop-take (suc n) zero (suc m) [] h = refl
take-drop-take (suc n) zero (suc m) (x ∷ xs) h = ap (◌∷◌ x) (take-drop-take n 0 m xs (omega arith))
take-drop-take (suc n) (suc k) zero xs h = absurd (omega arith)
take-drop-take (suc n) (suc k) (suc m) [] h = refl
take-drop-take (suc n) (suc k) (suc m) (x ∷ xs) h = take-drop-take (suc n) k m xs (omega arith)

-- A sector within the first `n` is read from the first part, one behind them from the rest.
sector_of-take :
    (data' : Bytes) (n k : ℕ)
    → k < n
    → sector_of (take (n * sector_size) data') k ≡ sector_of data' k
unfolding sector_of
sector_of-take data' n k h =
    take-drop-take sector_size (k * sector_size) (n * sector_size) data' (omega arith)

sector_of-drop :
    (data' : Bytes) (n k : ℕ) → sector_of (drop (n * sector_size) data') k ≡ sector_of data' (n + k)
unfolding sector_of
sector_of-drop data' n k =
    ap (take sector_size)
      (drop-drop (k * sector_size) (n * sector_size) ((n + k) * sector_size) data' (omega arith))

-- Storing the first `n` sectors and then the others stores them all.
stored-stored :
    (lba n m : ℕ) (data' : Bytes) (card : Card) (a : ℕ)
    → stored
        (lba + n)
        m
        (drop (n * sector_size) data')
        (stored lba n (take (n * sector_size) data') card)
        a
      ≡ stored lba (n + m) data' card a
stored-stored lba n m data' card a =
    ground (arith, sector_of-take data' n (a - lba), sector_of-drop data' n (a - (lba + n)))

pub apply_all-write_requests :
    (fuel lba remaining : ℕ) (data' : Bytes) (card : Card) (a : ℕ)
    → remaining ≤ fuel
    → apply_all (write_requests fuel lba remaining data') card a ≡ stored lba remaining data' card a
unfolding write_requests
apply_all-write_requests zero lba remaining data' card a h = ground arith
apply_all-write_requests (suc fuel) lba remaining data' card a h =
    let n = min remaining max_write_chunk in
    let rest = drop (n * sector_size) data' in
    let first = stored lba n (take (n * sector_size) data') card in
    elim (Bool-cases (remaining == 0)) [
      | inl done ↦ rw done (ground arith)
      | inr more ↦ rw more (
          apply_all-write_requests fuel (lba + n) (remaining - n) rest first a (ground arith)
          ∙ stored-stored lba n (remaining - n) data' card a
          ∙ ap (λ c. stored lba c data' card a) (omega arith))
    ]
