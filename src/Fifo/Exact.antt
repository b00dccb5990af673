-- ===== src/Fifo/Exact.antt =====
-- `read_exact` of the FIFO ends with the bytes it was asked for.
use fpga_emmc_card_reader.Base.{
  ℕ, zero, suc, ◌+◌, ◌-◌, ◌≤◌, ◌<◌, [], ◌∷◌, ◌++◌, append_assoc, append-nil, ◌≡◌, sym, ap, ◌∙◌,
  subst, arith, inl, inr, ◌⊎◌, length, length-append, Bytes, Outcome, ok, continue,
}
use fpga_emmc_card_reader.Fifo.{
  Usb, FifoTransport, consume_buffered, after_poll, after_buffer, exact_loop, fifo_read_exact,
}
use fpga_emmc_card_reader.Fifo.Buffer.{unread, consume_buffered-Consumed}
use fpga_emmc_card_reader.Fifo.Delivery.{IsDelivering}
use fpga_emmc_card_reader.Fifo.Refines.{
  Holds, fill_buffer-brings, now, later, now-later, Holds-later, consumed_now, now-some,
  moved_or_none,
}

module _ {U : Type 0} {usb : Usb U} (d : IsDelivering usb) (rest o : Bytes) where
  -- `r` is the result of a call that gives these bytes, with `rest` to come.
  abbrev Gives : Bytes → Outcome Bytes × FifoTransport U → Type 0
  Gives bytes r = (s' : FifoTransport U) × (r ≡ (ok bytes, s')) × Holds d s' rest o

  -- The loop with this much fuel takes what is awaited, if its polls outlast the quiet ones.
  abbrev Loops : ℕ → Type 0
  Loops fuel =
      (polls : ℕ) (xs filled : Bytes) (s : FifoTransport U)
      → length xs + polls ≤ fuel
      → d.quiet s.bus ≤ polls
      → Holds d s (xs ++ rest) o
      → Gives (filled ++ xs) (exact_loop usb fuel polls (length xs) filled s)

  -- Bytes were moved: the loop goes on with the rest of them.
  goes_on :
      (fuel polls b : ℕ) (bytes ys filled : Bytes) (s : FifoTransport U)
      → Loops fuel
      → length (b ∷ bytes ++ ys) + polls ≤ suc fuel
      → d.quiet s.bus ≤ polls
      → Holds d s (ys ++ rest) o
      → Gives (filled ++ (b ∷ bytes ++ ys)) (
          exact_loop usb fuel polls
            (length (b ∷ bytes ++ ys) - length (b ∷ bytes))
            (filled ++ b ∷ bytes)
            s)
  goes_on fuel polls b bytes ys filled s ih room quiet h =
      let size = length-append bytes ys in
      let left : length (b ∷ bytes ++ ys) - length (b ∷ bytes) ≡ length ys = omega (arith, size) in
      let (s', e, h') = ih polls ys (filled ++ b ∷ bytes) s (omega (arith, size, room)) quiet h in
      (
        s',
        ap (λ (k : ℕ). exact_loop usb fuel polls k (filled ++ b ∷ bytes) s) left
            ∙ e
            ∙ ap (λ (t : Bytes). (ok t, s')) (append_assoc filled (b ∷ bytes) ys),
        h',
      )

  -- After a poll: bytes, or one poll less.
  polled :
      (fuel polls : ℕ) (got ys filled : Bytes) (s : FifoTransport U)
      → Loops fuel
      → 0 < length (got ++ ys)
      → length (got ++ ys) + polls ≤ suc fuel
      → ((0 < length got) × (d.quiet s.bus ≤ polls)) ⊎ (d.quiet s.bus < polls)
      → Holds d s (ys ++ rest) o
      → Gives
          (filled ++ (got ++ ys))
          (after_poll usb (exact_loop usb fuel) polls (length (got ++ ys)) filled (got, s))
  unfolding after_poll
  polled fuel zero [] ys filled s ih some room progress h = absurd (ground arith)
  polled fuel (suc polls) [] ys filled s ih some room progress h =
      ih polls ys filled s (omega arith) (ground arith) h
  polled fuel zero (b ∷ bytes) ys filled s ih some room progress h =
      goes_on fuel zero b bytes ys filled s ih room (ground arith) h
  polled fuel (suc polls) (b ∷ bytes) ys filled s ih some room progress h =
      goes_on fuel (suc polls) b bytes ys filled s ih room (ground arith) h

  -- What a poll brought is taken from the buffer.
  taken :
      (fuel polls x : ℕ) (ys filled : Bytes) (s : FifoTransport U)
      → Loops fuel
      → length (x ∷ ys) + polls ≤ suc fuel
      → ((0 < length (unread s)) × (d.quiet s.bus ≤ polls)) ⊎ (d.quiet s.bus < polls)
      → Holds d s (x ∷ ys ++ rest) o
      → Gives (filled ++ x ∷ ys) (
          after_poll usb
            (exact_loop usb fuel)
            polls
            (length (x ∷ ys))
            filled
            (consume_buffered (length (x ∷ ys)) s))
  taken fuel polls x ys filled s ih room progress h =
      let got = now d s (x ∷ ys) in
      let left = later d s (x ∷ ys) in
      let s2 = (consume_buffered (length (x ∷ ys)) s).1 in
      let parts = now-later d s (x ∷ ys) rest o h in
      let moved = consumed_now d s (x ∷ ys) rest o h in
      let size : length (got ++ left) ≡ length (x ∷ ys) = ap length (sym parts) in
      let same : s2.bus ≡ s.bus =
        (consume_buffered-Consumed (length (x ∷ ys)) s h.inside).same_bus in
      let some : ((0 < length got) × (d.quiet s2.bus ≤ polls)) ⊎ (d.quiet s2.bus < polls) =
        subst (λ (u : U). ((0 < length got) × (d.quiet u ≤ polls)) ⊎ (d.quiet u < polls)) (sym same)
          (elim progress
            as (λ _. ((0 < length got) × (d.quiet s.bus ≤ polls)) ⊎ (d.quiet s.bus < polls)) [
              | inl p ↦ inl (now-some d s x ys p.0, p.1)
              | inr p ↦ inr p
            ]) in
      subst
        (λ c.
          Gives (filled ++ x ∷ ys)
            (after_poll usb (exact_loop usb fuel) polls (length (x ∷ ys)) filled c))
        (sym moved)
        (subst
          (λ w.
            Gives (filled ++ w)
              (after_poll usb (exact_loop usb fuel) polls (length w) filled (got, s2)))
          (sym parts)
          (polled fuel polls got left filled s2 ih (omega (arith, size)) (omega (arith, size, room))
            some (Holds-later d s (x ∷ ys) rest o h)))

  -- A pass that found bytes in the buffer, or that has to poll.
  buffered :
      (fuel polls : ℕ) (got ys filled : Bytes) (s : FifoTransport U)
      → Loops fuel
      → 0 < length (got ++ ys)
      → length (got ++ ys) + polls ≤ suc fuel
      → d.quiet s.bus ≤ polls
      → (0 < length got) ⊎ (unread s ≡ [])
      → Holds d s (ys ++ rest) o
      → Gives
          (filled ++ (got ++ ys))
          (after_buffer usb (exact_loop usb fuel) polls (length (got ++ ys)) filled (got, s))
  unfolding after_buffer
  buffered fuel polls [] [] filled s ih some room quiet none h = absurd (omega arith)
  buffered fuel polls [] (x ∷ ys) filled s ih some room quiet (inl wrong) h = absurd (omega arith)
  buffered fuel polls [] (x ∷ ys) filled s ih some room quiet (inr none) h =
      let (s1, filled_up, h1, progress) =
        fill_buffer-brings d s x (ys ++ rest) o (length (x ∷ ys)) 100 h none in
      let (s', e, h') = taken fuel polls x ys filled s1 ih room (ground (arith, progress)) h1 in
      (
        s',
        ap
              (λ r.
                continue r.0
                  (λ _ s'.
                    after_poll usb (exact_loop usb fuel) polls (length (x ∷ ys)) filled
                      (consume_buffered (length (x ∷ ys)) s'))
                  r.1)
              filled_up
            ∙ e,
        h',
      )
  buffered fuel polls (b ∷ bytes) ys filled s ih some room quiet none h =
      goes_on fuel polls b bytes ys filled s ih room quiet h

  exact_loop-Gives : (fuel : ℕ) → Loops fuel
  unfolding exact_loop
  exact_loop-Gives fuel polls [] filled s room quiet h =
      (s, ap (λ (t : Bytes). (ok t, s)) (sym (append-nil filled)), h)
  exact_loop-Gives zero polls (x ∷ xs) filled s room quiet h = absurd (omega arith)
  exact_loop-Gives (suc fuel) polls (x ∷ xs) filled s room quiet h =
      let got = now d s (x ∷ xs) in
      let left = later d s (x ∷ xs) in
      let s2 = (consume_buffered (length (x ∷ xs)) s).1 in
      let parts = now-later d s (x ∷ xs) rest o h in
      let moved = consumed_now d s (x ∷ xs) rest o h in
      let size : length (got ++ left) ≡ length (x ∷ xs) = ap length (sym parts) in
      let c = consume_buffered-Consumed (length (x ∷ xs)) s h.inside in
      let none : (0 < length got) ⊎ (unread s2 ≡ []) = moved_or_none d s x xs s2 c.left in
      subst
        (λ r.
          Gives (filled ++ x ∷ xs)
            (after_buffer usb (exact_loop usb fuel) polls (length (x ∷ xs)) filled r))
        (sym moved)
        (subst
          (λ w.
            Gives (filled ++ w)
              (after_buffer usb (exact_loop usb fuel) polls (length w) filled (got, s2)))
          (sym parts)
          (buffered fuel polls got left filled s2 (exact_loop-Gives fuel) (omega (arith, size))
            (omega (arith, size, room))
            (subst (λ (u : U). d.quiet u ≤ polls) (sym c.same_bus) quiet) none
            (Holds-later d s (x ∷ xs) rest o h)))

  -- `read_exact` over a USB link that delivers, however the transfers cut the bytes: it returns the
  -- awaited bytes, and what follows them is still to come.
  pub fifo_read_exact-Gives :
      (xs : Bytes) (s : FifoTransport U)
      → Holds d s (xs ++ rest) o
      → Gives xs (fifo_read_exact usb (length xs) s)
  unfolding fifo_read_exact
  fifo_read_exact-Gives xs s h =
      let polls = usb.polls s.timeout 100 s.bus in
      exact_loop-Gives (length xs + polls) polls xs [] s (omega arith)
        (d.quiet-polls s.bus h.pending o s.timeout 100 h.bus_at h.patient) h
