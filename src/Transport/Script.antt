-- ===== src/Transport/Script.antt =====
-- A link that plays a script: a list of bytes that will come in, and a record of what went out.
-- It shows that the assumptions on a link can be met.
use fpga_emmc_card_reader.Base.{
  ℕ, [], ◌∷◌, ◌++◌, ◌≡◌, refl, ap, true, false, length, take, drop, leb, if◌then◌else◌, Bytes, ok,
  err, io, take-length_append, drop-length_append, length-append, arith,
}
use fpga_emmc_card_reader.Transport.{Transport}
use fpga_emmc_card_reader.Transport.Stream.{IsStream}

pub record Script : Type 0 where
  pub input : Bytes
  pub output : Bytes

unfoldable pub script : Transport Script
script = record {
  write_all = λ data' s. (ok tt, record s { output = s.output ++ data' });
  flush = λ s. (ok tt, s);
  read = λ n s. (ok (take n s.input), record s { input = drop n s.input });
  read_exact = λ n s.
      if leb n (length s.input)
      then (ok (take n s.input), record s { input = drop n s.input })
      else (err (io 110), s);
  set_timeout = λ n s. (ok tt, s);
  purge_input = λ s. (ok tt, record s { input = [] });
  is_fifo = λ s. false;
}

abbrev pub Plays : Script → Bytes → Bytes → Type 0
Plays s i o = (s.input ≡ i) × (s.output ≡ o)

pub script-read_exact :
    (s : Script) (xs rest o : Bytes)
    → Plays s (xs ++ rest) o
    → (s' : Script) × (script.read_exact (length xs) s ≡ (ok xs, s')) × Plays s' rest o
unfolding script
script-read_exact s xs rest o h = (
  record s { input = drop (length xs) s.input },
  rw (fits, h.0, take-length_append (length xs) xs rest refl),
  (rw h.0 (drop-length_append (length xs) xs rest refl), h.1),
)
  where
    fits : leb (length xs) (length s.input) ≡ true
    fits = rw h.0 (ground (arith, length-append xs rest))

pub script-read_one :
    (s : Script) (b : ℕ) (rest o : Bytes)
    → Plays s (b ∷ rest) o
    → (s' : Script) × (script.read 1 s ≡ (ok (b ∷ []), s')) × Plays s' rest o
unfolding script
script-read_one s b rest o h = (record s { input = drop 1 s.input }, rw h.0, (rw h.0, h.1))

abbrev pub script-IsStream : IsStream script
unfolding script
script-IsStream = record {
  At = Plays;
  read_one = script-read_one;
  read_exact_lem = script-read_exact;
  write_all_lem = λ s d i o h.
      (record s { output = s.output ++ d }, refl, (h.0, ap (λ (x : Bytes). x ++ d) h.1));
  flush_lem = λ s i o h. (s, refl, h);
}
