-- ===== src/Fifo/Stream.antt =====
-- The FIFO over a USB link that delivers is a stream, so that all that is shown of a connection
-- over a stream holds over the FIFO.
use fpga_emmc_card_reader.Base.{
  ℕ, zero, suc, ◌≤◌, ◌<◌, [], ◌∷◌, ◌++◌, append_assoc, append-nil, ◌≡◌, refl, sym, ap, ◌∙◌, subst,
  arith, length, length-drop, take, drop, take-append-drop, Bytes, Outcome, ok, Action, continue,
  bail, timed_out,
}
use fpga_emmc_card_reader.Transport.Stream.{IsStream}
use fpga_emmc_card_reader.Fifo.{
  Usb, FifoTransport, consume_buffered, moved_or, read_loop, fifo_read, ftdi_write, fifo,
}
use fpga_emmc_card_reader.Fifo.Buffer.{unread, consume_buffered-Consumed}
use fpga_emmc_card_reader.Fifo.Delivery.{IsDelivering}
use fpga_emmc_card_reader.Fifo.Refines.{
  Holds, fill_buffer-brings, now, later, now-later, Holds-later, consumed_now, now-nil,
}
use fpga_emmc_card_reader.Fifo.Exact.{fifo_read_exact-Gives}

module _ {U : Type 0} {usb : Usb U} (d : IsDelivering usb) where
  module _ (b : ℕ) (rest o : Bytes) where
    abbrev GivesOne : Outcome Bytes × FifoTransport U → Type 0
    GivesOne r = (s' : FifoTransport U) × (r ≡ (ok (b ∷ []), s')) × Holds d s' rest o

    -- The byte was moved, or else the loop goes on.
    one_of :
        (again : Action (FifoTransport U) Bytes) (got left : Bytes) (s : FifoTransport U)
        → b ∷ [] ≡ got ++ left
        → Holds d s (left ++ rest) o
        → (got ≡ [] → Holds d s (b ∷ rest) o → GivesOne (again s))
        → GivesOne (moved_or usb again (got, s))
    unfolding moved_or
    one_of again [] left s e h k = k refl (subst (λ t. Holds d s (t ++ rest) o) (sym e) h)
    one_of again (c ∷ []) left s e h k =
        let none : left ≡ [] = cc in
        let same : c ≡ b = cc in
        (s, ap (λ (t : ℕ). (ok (t ∷ []), s)) same, subst (λ t. Holds d s (t ++ rest) o) none h)
    one_of again (c ∷ c' ∷ got) left s e h k = cc

    one :
        (again : Action (FifoTransport U) Bytes) (s : FifoTransport U)
        → Holds d s (b ∷ rest) o
        → (unread s ≡ []
            → Holds d (consume_buffered 1 s).1 (b ∷ rest) o
            → GivesOne (again (consume_buffered 1 s).1))
        → GivesOne (moved_or usb again (consume_buffered 1 s))
    one again s h k =
        subst (λ c. GivesOne (moved_or usb again c)) (sym (consumed_now d s (b ∷ []) rest o h))
          (one_of again (now d s (b ∷ [])) (later d s (b ∷ [])) (consume_buffered 1 s).1
            (now-later d s (b ∷ []) rest o h) (Holds-later d s (b ∷ []) rest o h)
            (λ e. k (now-nil d s b [] e)))

    -- The buffer is still empty after a look at it when it was empty.
    still_empty :
        (s : FifoTransport U)
        → Holds d s (b ∷ rest) o
        → unread s ≡ []
        → (unread (consume_buffered 1 s).1 ≡ []) × ((consume_buffered 1 s).1.bus ≡ s.bus)
    still_empty s h e =
        let c = consume_buffered-Consumed 1 s h.inside in (c.left ∙ ap (drop 1) e, c.same_bus)

    read_loop-GivesOne :
        (polls : ℕ) (s : FifoTransport U)
        → Holds d s (b ∷ rest) o
        → unread s ≡ []
        → d.quiet s.bus ≤ polls
        → GivesOne (read_loop usb polls 1 s)
    unfolding read_loop
    read_loop-GivesOne zero s h e quiet =
        let (s1, filled_up, h1, progress) = fill_buffer-brings d s b rest o 1 50 h e in
        let some : 0 < length (unread s1) = ground (arith, progress) in
        let (s', e', h') =
          one (bail timed_out) s1 h1 (λ none. absurd (omega (arith, some, ap length none))) in
        (
          s',
          ap (λ r. continue r.0 (λ _ s'. moved_or usb (bail timed_out) (consume_buffered 1 s')) r.1)
                filled_up
              ∙ e',
          h',
        )
    read_loop-GivesOne (suc polls) s h e quiet =
        let (s1, filled_up, h1, progress) = fill_buffer-brings d s b rest o 1 50 h e in
        let (s', e', h') = one (read_loop usb polls 1) s1 h1 (λ none h2.
          let (empty, same) = still_empty s1 h1 none in
          let less : d.quiet s1.bus ≤ polls = ground (arith, progress, ap length none) in
          read_loop-GivesOne polls _ h2 empty
            (subst (λ (u : U). d.quiet u ≤ polls) (sym same) less)) in
        (
          s',
          ap
                (λ r.
                  continue r.0
                    (λ _ s'. moved_or usb (read_loop usb polls 1) (consume_buffered 1 s')) r.1)
                filled_up
              ∙ e',
          h',
        )

    pub fifo_read-GivesOne :
        (s : FifoTransport U) → Holds d s (b ∷ rest) o → GivesOne (fifo_read usb 1 s)
    unfolding fifo_read
    fifo_read-GivesOne s h =
        one (λ s'. read_loop usb (usb.polls s'.timeout 50 s'.bus) 1 s') s h
          (λ none h2.
            read_loop-GivesOne _ _ h2 (still_empty s h none).0
              (d.quiet-polls _ h2.pending o _ 50 h2.bus_at h2.patient))

  -- Every write takes some bytes, so that as many as there are bytes are enough.
  pub ftdi_write-sends :
      (fuel : ℕ) (data' i o : Bytes) (u : U)
      → length data' ≤ fuel
      → d.At u i o
      → (u' : U) × (ftdi_write usb fuel data' u ≡ (ok tt, u')) × d.At u' i (o ++ data')
  unfolding ftdi_write
  ftdi_write-sends fuel [] i o u room h = (u, refl, subst (λ t. d.At u i t) (sym (append-nil o)) h)
  ftdi_write-sends zero (b ∷ data') i o u room h = absurd (omega arith)
  ftdi_write-sends (suc fuel) (b ∷ data') i o u room h =
      let (n, u1, wrote, some, h1) = d.write_bulk_lem u b data' i o h in
      let (u', e, h') =
        ftdi_write-sends fuel (drop n (b ∷ data')) i (o ++ take n (b ∷ data')) u1
          (omega (arith, length-drop n (b ∷ data'))) h1 in
      (
        u',
        ap (λ r. continue r.0 (λ n. ftdi_write usb fuel (drop n (b ∷ data'))) r.1) wrote ∙ e,
        subst (λ t. d.At u' i t)
            (append_assoc o (take n (b ∷ data')) (drop n (b ∷ data'))
              ∙ ap (λ (t : Bytes). o ++ t) (take-append-drop n (b ∷ data')))
            h',
      )

  pub fifo-write_all :
      (s : FifoTransport U) (data' i o : Bytes)
      → Holds d s i o
      → (s' : FifoTransport U) × ((fifo usb).write_all data' s ≡ (ok tt, s'))
        × Holds d s' i (o ++ data')
  unfolding fifo
  fifo-write_all s data' i o h =
      let (u', e, at') =
        ftdi_write-sends (length data') data' h.pending o s.bus (omega arith) h.bus_at in
      (
        record s { bus = u' },
        ap (λ r. (r.0, record s { bus = r.1 })) e,
        record {
          pending = h.pending;
          split = h.split;
          bus_at = at';
          inside = h.inside;
          patient = h.patient;
        },
      )

  unfoldable pub fifo-IsStream : IsStream (fifo usb)
  unfolding fifo
  fifo-IsStream = record {
    At = Holds d;
    read_one = λ s b rest o h. fifo_read-GivesOne b rest o s h;
    read_exact_lem = λ s xs rest o h. fifo_read_exact-Gives d rest o xs s h;
    write_all_lem = fifo-write_all;
    flush_lem = λ s i o h. (s, refl, h);
  }
