-- ===== src/Rpmb/Frames.antt =====
-- A frame that was built is parsed back, field by field.
use fpga_emmc_card_reader.Base.{
  ℕ, ◌+◌, ◌%◌, ◌≤◌, ◌<◌, Option, none, some, ◌≡◌, refl, ap, ◌∙◌, arith, ◌-◌, ◌⊎◌, inl, inr, length,
  slice, replicate, Bytes, byte_at, be16, be32,
}
use fpga_emmc_card_reader.Base.Blit.{blit, length-blit, byte_at-blit, slice-blit, slice-blit_beside}
use fpga_emmc_card_reader.Rpmb.{blit_some, two_bytes, build_frame, parse_frame}

-- A part has its size, if it is given; what is not given reads as zeros.
abbrev pub Fits : ℕ → Option Bytes → Type 0
Fits k none = Unit
Fits k (some part) = length part ≡ k

abbrev pub part_or_zeros : ℕ → Option Bytes → Bytes
part_or_zeros k none = replicate k 0
part_or_zeros k (some part) = part

length-blit_some :
    (off k : ℕ) (o : Option Bytes) (frame : Bytes)
    → Fits k o
    → off + k ≤ length frame
    → length (blit_some off o frame) ≡ length frame
length-blit_some off k none frame f h = refl
length-blit_some off k (some part) frame f h = length-blit off part frame (omega arith)

slice-blit_some :
    (off k hi : ℕ) (o : Option Bytes) (frame : Bytes)
    → Fits k o
    → hi ≡ off + k
    → hi ≤ length frame
    → slice off hi frame ≡ replicate k 0
    → slice off hi (blit_some off o frame) ≡ part_or_zeros k o
slice-blit_some off k hi none frame f e h z = z
slice-blit_some off k hi (some part) frame f e h z = slice-blit off hi part frame (omega arith) h

slice-blit_some_beside :
    (off k lo hi : ℕ) (o : Option Bytes) (frame : Bytes)
    → Fits k o
    → off + k ≤ length frame
    → hi ≤ length frame
    → (hi ≤ off) ⊎ (off + k ≤ lo)
    → slice lo hi (blit_some off o frame) ≡ slice lo hi frame
slice-blit_some_beside off k lo hi none frame f h g side = refl
slice-blit_some_beside off k lo hi (some part) frame f h g side =
    slice-blit_beside off lo hi part frame (omega arith) g (ground arith)

no_more : (off : ℕ) → off - off ≡ 0
no_more off = omega arith

one_more : (off : ℕ) → off + 1 - off ≡ 1
one_more off = omega arith

be16-blit :
    (off x : ℕ) (frame : Bytes)
    → off + 2 ≤ length frame
    → be16 (blit off (two_bytes x) frame) off ≡ x % 65536
be16-blit off x frame h = ground (
  arith,
  byte_at-blit off (two_bytes x) frame off h,
  byte_at-blit off (two_bytes x) frame (off + 1) h,
  ap (byte_at (two_bytes x)) (no_more off),
  ap (byte_at (two_bytes x)) (one_more off),
)

be16-blit_beside :
    (off at : ℕ) (src frame : Bytes)
    → off + length src ≤ length frame
    → (at + 2 ≤ off) ⊎ (off + length src ≤ at)
    → be16 (blit off src frame) at ≡ be16 frame at
be16-blit_beside off at src frame h side =
    ground (arith, byte_at-blit off src frame at h, byte_at-blit off src frame (at + 1) h)

be16-blit_some_beside :
    (off k at : ℕ) (o : Option Bytes) (frame : Bytes)
    → Fits k o
    → off + k ≤ length frame
    → (at + 2 ≤ off) ⊎ (off + k ≤ at)
    → be16 (blit_some off o frame) at ≡ be16 frame at
be16-blit_some_beside off k at none frame f h side = refl
be16-blit_some_beside off k at (some part) frame f h side =
    be16-blit_beside off at part frame (omega arith) (ground arith)

-- The frame at each stage of `build_frame`.
module _ (req_type addr count : ℕ) (n d m : Option Bytes) (fn : Fits 16 n) (fd : Fits 256 d)
    (fm : Fits 32 m) where
  abbrev f0 : Bytes
  f0 = replicate 512 0

  abbrev f1 : Bytes
  f1 = blit_some 196 m f0

  abbrev f2 : Bytes
  f2 = blit_some 228 d f1

  abbrev f3 : Bytes
  f3 = blit_some 484 n f2

  abbrev f4 : Bytes
  f4 = blit 504 (two_bytes addr) f3

  abbrev f5 : Bytes
  f5 = blit 506 (two_bytes count) f4

  abbrev f6 : Bytes
  f6 = blit 510 (two_bytes req_type) f5

  l1 : length f1 ≡ 512
  l1 = length-blit_some 196 32 m f0 fm (omega arith)

  l2 : length f2 ≡ 512
  l2 = length-blit_some 228 256 d f1 fd (omega (arith, l1)) ∙ l1

  l3 : length f3 ≡ 512
  l3 = length-blit_some 484 16 n f2 fn (omega (arith, l2)) ∙ l2

  l4 : length f4 ≡ 512
  l4 = length-blit 504 (two_bytes addr) f3 (omega (arith, l3)) ∙ l3

  l5 : length f5 ≡ 512
  l5 = length-blit 506 (two_bytes count) f4 (omega (arith, l4)) ∙ l4

  l6 : length f6 ≡ 512
  l6 = length-blit 510 (two_bytes req_type) f5 (omega (arith, l5)) ∙ l5

  -- Below byte 504 the three numbers change nothing.
  slice-numbers : (lo hi : ℕ) → hi ≤ 504 → slice lo hi f6 ≡ slice lo hi f3
  slice-numbers lo hi h =
      slice-blit_beside 510 lo hi (two_bytes req_type) f5 (omega (arith, l5)) (omega (arith, l5))
        (inl (omega arith))
      ∙ slice-blit_beside 506 lo hi (two_bytes count) f4 (omega (arith, l4)) (omega (arith, l4))
          (inl (omega arith))
      ∙ slice-blit_beside 504 lo hi (two_bytes addr) f3 (omega (arith, l3)) (omega (arith, l3))
          (inl (omega arith))

  mac_back : slice 196 228 f6 ≡ part_or_zeros 32 m
  mac_back =
      slice-numbers 196 228 (omega arith)
      ∙ slice-blit_some_beside 484 16 196 228 n f2 fn (omega (arith, l2)) (omega (arith, l2))
          (inl (omega arith))
      ∙ slice-blit_some_beside 228 256 196 228 d f1 fd (omega (arith, l1)) (omega (arith, l1))
          (inl (omega arith))
      ∙ slice-blit_some 196 32 228 m f0 fm refl (omega arith) refl

  data_back : slice 228 484 f6 ≡ part_or_zeros 256 d
  data_back =
      slice-numbers 228 484 (omega arith)
      ∙ slice-blit_some_beside 484 16 228 484 n f2 fn (omega (arith, l2)) (omega (arith, l2))
          (inl (omega arith))
      ∙ slice-blit_some 228 256 484 d f1 fd refl (omega (arith, l1)) (
          slice-blit_some_beside 196 32 228 484 m f0 fm (omega arith) (omega arith)
            (inr (omega arith)))

  nonce_back : slice 484 500 f6 ≡ part_or_zeros 16 n
  nonce_back =
      slice-numbers 484 500 (omega arith)
      ∙ slice-blit_some 484 16 500 n f2 fn refl (omega (arith, l2)) (
          slice-blit_some_beside 228 256 484 500 d f1 fd (omega (arith, l1)) (omega (arith, l1))
            (inr (omega arith))
          ∙ slice-blit_some_beside 196 32 484 500 m f0 fm (omega arith) (omega arith)
              (inr (omega arith)))

  -- Bytes that no part covers stay 0.
  untouched : (at : ℕ) → 500 ≤ at → at + 2 ≤ 504 → be16 f6 at ≡ be16 f0 at
  untouched at lo hi =
      be16-blit_beside 510 at (two_bytes req_type) f5 (omega (arith, l5)) (inl (omega arith))
      ∙ be16-blit_beside 506 at (two_bytes count) f4 (omega (arith, l4)) (inl (omega arith))
      ∙ be16-blit_beside 504 at (two_bytes addr) f3 (omega (arith, l3)) (inl (omega arith))
      ∙ be16-blit_some_beside 484 16 at n f2 fn (omega (arith, l2)) (inr (omega arith))
      ∙ be16-blit_some_beside 228 256 at d f1 fd (omega (arith, l1)) (inr (omega arith))
      ∙ be16-blit_some_beside 196 32 at m f0 fm (omega arith) (inr (omega arith))

  counter_back : be32 f6 500 ≡ 0
  counter_back =
      omega (
        arith,
        untouched 500 (omega arith) (omega arith),
        untouched 502 (omega arith) (omega arith),
      )

  address_back : be16 f6 504 ≡ addr % 65536
  address_back =
      be16-blit_beside 510 504 (two_bytes req_type) f5 (omega (arith, l5)) (inl (omega arith))
      ∙ be16-blit_beside 506 504 (two_bytes count) f4 (omega (arith, l4)) (inl (omega arith))
      ∙ be16-blit 504 addr f3 (omega (arith, l3))

  count_back : be16 f6 506 ≡ count % 65536
  count_back =
      be16-blit_beside 510 506 (two_bytes req_type) f5 (omega (arith, l5)) (inl (omega arith))
      ∙ be16-blit 506 count f4 (omega (arith, l4))

  result_back : be16 f6 508 ≡ 0
  result_back =
      be16-blit_beside 510 508 (two_bytes req_type) f5 (omega (arith, l5)) (inl (omega arith))
      ∙ be16-blit_beside 506 508 (two_bytes count) f4 (omega (arith, l4)) (inr (omega arith))
      ∙ be16-blit_beside 504 508 (two_bytes addr) f3 (omega (arith, l3)) (inr (omega arith))
      ∙ be16-blit_some_beside 484 16 508 n f2 fn (omega (arith, l2)) (inr (omega arith))
      ∙ be16-blit_some_beside 228 256 508 d f1 fd (omega (arith, l1)) (inr (omega arith))
      ∙ be16-blit_some_beside 196 32 508 m f0 fm (omega arith) (inr (omega arith))

-- A request frame is 512 bytes long, and parses to the parts that it was built from: MAC, data and
-- nonce of their sizes or zeros, the numbers as 16-bit words, counter and result 0.
pub parse_frame-build_frame :
    (req_type addr count : ℕ) (n d m : Option Bytes)
    → Fits 16 n
    → Fits 256 d
    → Fits 32 m
    → req_type < 65536
    → addr < 65536
    → count < 65536
    → (length (build_frame req_type addr count n d m) ≡ 512)
      × (parse_frame (build_frame req_type addr count n d m) ≡ record {
        mac = part_or_zeros 32 m;
        data' = part_or_zeros 256 d;
        nonce = part_or_zeros 16 n;
        write_counter = 0;
        address = addr;
        block_count = count;
        result = 0;
        req_resp_type = req_type;
      })
unfolding build_frame parse_frame
parse_frame-build_frame req_type addr count n d m fn fd fm hr ha hc =
    let whole = l6 req_type addr count n d m fn fd fm in
    let length5 = l5 req_type addr count n d m fn fd fm in
    (
      whole,
      λ i. record {
        mac = mac_back req_type addr count n d m fn fd fm i;
        data' = data_back req_type addr count n d m fn fd fm i;
        nonce = nonce_back req_type addr count n d m fn fd fm i;
        write_counter = counter_back req_type addr count n d m fn fd fm i;
        address = (address_back req_type addr count n d m fn fd fm ∙ within addr ha) i;
        block_count = (count_back req_type addr count n d m fn fd fm ∙ within count hc) i;
        result = result_back req_type addr count n d m fn fd fm i;
        req_resp_type =
            (be16-blit 510 req_type (f5 req_type addr count n d m fn fd fm) (omega (arith, length5))
                ∙ within req_type hr)
              i;
      },
    )
  where
    within : (x : ℕ) → x < 65536 → x % 65536 ≡ x
    within x h = omega arith
