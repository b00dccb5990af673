-- ===== src/Fifo/Refines.antt =====
-- The FIFO over a USB link that delivers is a stream.
use fpga_emmc_card_reader.Base.{
  ℕ, zero, suc, ◌≤◌, ◌<◌, [], ◌∷◌, ◌++◌, append_assoc, ◌≡◌, refl, sym, ap, ap₂, ◌∙◌, subst, arith,
  inl, inr, ◌⊎◌, max, length, take, drop, take-append-drop, Bytes, ok,
}
use fpga_emmc_card_reader.Fifo.{
  Usb, FifoTransport, ftdi_read, fill_buffer, consume_buffered, add_bytes,
}
use fpga_emmc_card_reader.Fifo.Buffer.{
  unread, consume_buffered-Consumed, unread-add_bytes, add_bytes-bus, add_bytes-timeout,
  add_bytes-inside,
}
use fpga_emmc_card_reader.Fifo.Delivery.{IsDelivering}

append_cancel : (xs ys zs : Bytes) → xs ++ ys ≡ xs ++ zs → ys ≡ zs
append_cancel [] ys zs h = h
append_cancel (x ∷ xs) ys zs h = append_cancel xs ys zs (cc)

-- Two strings that go on to the same one: what the shorter holds starts the other.
common_start :
    (n : ℕ) (xs ys rest later : Bytes)
    → xs ++ rest ≡ ys ++ later
    → length xs ≡ n
    → xs ≡ take n ys ++ drop (length (take n ys)) xs
common_start zero [] ys rest later h k = refl
common_start zero (x ∷ xs) ys rest later h k = absurd (omega arith)
common_start (suc n) [] ys rest later h k = absurd (omega arith)
common_start (suc n) (x ∷ xs) [] rest later h k = refl
common_start (suc n) (x ∷ xs) (y ∷ ys) rest later h k =
    ap₂ ◌∷◌ (cc) (common_start n xs ys rest later (cc) (omega arith))

module _ {U : Type 0} {usb : Usb U} (d : IsDelivering usb) where
  -- The unread bytes and then those of the bus will come; the deadline is long enough.
  pub record Holds (s : FifoTransport U) (i o : Bytes) : Type 0 where
    pub pending : Bytes
    pub split : i ≡ unread s ++ pending
    pub bus_at : d.At s.bus pending o
    pub inside : s.read_pos ≤ length s.read_buf
    pub patient : 2 ≤ s.timeout

  -- A poll while a byte is awaited, with nothing unread: what comes is put in the buffer.
  pub fill_buffer-brings :
      (s : FifoTransport U) (b : ℕ) (i o : Bytes) (hint ms : ℕ)
      → Holds s (b ∷ i) o
      → unread s ≡ []
      → (s' : FifoTransport U) × (fill_buffer usb hint ms s ≡ (ok tt, s'))
        × Holds s' (b ∷ i) o
        × (((0 < length (unread s')) × (d.quiet s'.bus ≤ d.quiet s.bus))
            ⊎ (d.quiet s'.bus < d.quiet s.bus))
  unfolding fill_buffer ftdi_read
  fill_buffer-brings s b i o hint ms h e =
      let all_pending : h.pending ≡ b ∷ i =
        ap (λ (t : Bytes). t ++ h.pending) (sym e) ∙ sym h.split in
      let at = subst (λ t. d.At s.bus t o) all_pending h.bus_at in
      let (x, i', u', arrives, moves, split', at', progress) =
        d.read_bulk_lem s.bus b i o (max hint 64) ms at (omega arith) in
      let polled : FifoTransport U = record s { bus = u' } in
      let holds_x : unread (add_bytes x polled) ≡ x =
        unread-add_bytes x polled ∙ ap (λ (t : Bytes). t ++ x) e in
      (
        add_bytes x polled,
        rw (arrives, moves),
        record {
          pending = i';
          split = split' ∙ ap (λ (t : Bytes). t ++ i') (sym holds_x);
          bus_at = subst (λ v. d.At v i' o) (sym (add_bytes-bus x polled)) at';
          inside = add_bytes-inside x polled h.inside;
          patient = omega (arith, add_bytes-timeout x polled, h.patient);
        },
        rw (holds_x, add_bytes-bus x polled) progress,
      )

  -- Taking unread bytes: those come, and the rest will.
  pub consumed-Holds :
      (s : FifoTransport U) (len : ℕ) (xs rest o : Bytes)
      → Holds s (xs ++ rest) o
      → take len (unread s) ≡ xs
      → Holds (consume_buffered len s).1 rest o
  consumed-Holds s len xs rest o h e =
      let c = consume_buffered-Consumed len s h.inside in
      let whole : unread s ≡ xs ++ drop len (unread s) =
        sym (take-append-drop len (unread s)) ∙ ap (λ (t : Bytes). t ++ drop len (unread s)) e in
      record {
        pending = h.pending;
        split =
            append_cancel xs rest _ (
              h.split
              ∙ ap (λ (t : Bytes). t ++ h.pending) whole
              ∙ append_assoc xs (drop len (unread s)) h.pending)
            ∙ ap (λ (t : Bytes). t ++ h.pending) (sym c.left);
        bus_at = subst (λ v. d.At v h.pending o) (sym c.same_bus) h.bus_at;
        inside = c.inside;
        patient = omega (arith, c.same_timeout, h.patient);
      }

  -- Where `xs` is awaited: the part that is moved at once, and the part that is not.
  unfoldable pub now : FifoTransport U → Bytes → Bytes
  now s xs = take (length xs) (unread s)

  unfoldable pub later : FifoTransport U → Bytes → Bytes
  later s xs = drop (length (take (length xs) (unread s))) xs

  pub now-later :
      (s : FifoTransport U) (xs rest o : Bytes)
      → Holds s (xs ++ rest) o
      → xs ≡ now s xs ++ later s xs
  unfolding now later
  now-later s xs rest o h = common_start (length xs) xs (unread s) rest h.pending h.split refl

  pub Holds-later :
      (s : FifoTransport U) (xs rest o : Bytes)
      → Holds s (xs ++ rest) o
      → Holds (consume_buffered (length xs) s).1 (later s xs ++ rest) o
  unfolding now later
  Holds-later s xs rest o h =
      consumed-Holds s (length xs) (now s xs) (later s xs ++ rest) o
        (subst (λ w. Holds s w o)
          (ap (λ (t : Bytes). t ++ rest) (now-later s xs rest o h)
            ∙ append_assoc (now s xs) (later s xs) rest)
          h)
        refl

  -- What the call gave, as the part that is moved at once.
  pub consumed_now :
      (s : FifoTransport U) (xs rest o : Bytes)
      → Holds s (xs ++ rest) o
      → consume_buffered (length xs) s ≡ (now s xs, (consume_buffered (length xs) s).1)
  unfolding now
  consumed_now s xs rest o h =
      ap (λ (t : Bytes). (t, (consume_buffered (length xs) s).1))
        (consume_buffered-Consumed (length xs) s h.inside).got

  -- If nothing of an awaited byte was moved, nothing is unread.
  pub moved_or_none :
      (s : FifoTransport U) (x : ℕ) (xs : Bytes) (s' : FifoTransport U)
      → unread s' ≡ drop (suc (length xs)) (unread s)
      → (0 < length (now s (x ∷ xs))) ⊎ (unread s' ≡ [])
  unfolding now
  moved_or_none s x xs s' e = cases (unread s) (unread s') e
    where
      cases :
          (ys zs : Bytes)
          → zs ≡ drop (suc (length xs)) ys
          → (0 < length (take (suc (length xs)) ys)) ⊎ (zs ≡ [])
      cases [] zs e = inr e
      cases (y ∷ ys) zs e = inl (omega arith)

  -- If something is unread and a byte is awaited, something is moved.
  pub now-some :
      (s : FifoTransport U) (x : ℕ) (xs : Bytes)
      → 0 < length (unread s)
      → 0 < length (now s (x ∷ xs))
  unfolding now
  now-some s x xs h = nonempty (unread s) h
    where
      nonempty : (ys : Bytes) → 0 < length ys → 0 < length (take (suc (length xs)) ys)
      nonempty [] h = absurd (omega arith)
      nonempty (y ∷ ys) h = omega arith

  -- If nothing of an awaited byte is moved, nothing is unread.
  pub now-nil : (s : FifoTransport U) (x : ℕ) (xs : Bytes) → now s (x ∷ xs) ≡ [] → unread s ≡ []
  unfolding now
  now-nil s x xs e = empty (unread s) e
    where
      empty : (ys : Bytes) → take (suc (length xs)) ys ≡ [] → ys ≡ []
      empty [] e = refl
      empty (y ∷ ys) e = cc
