-- ===== src/App/Access/Tests.antt =====
-- A dump of one sector to a file that is kept beside the link.
use fpga_emmc_card_reader.Base.{
  ℕ, zero, suc, ◌+◌, ◌-◌, ◌*◌, ◌≤◌, ◌<◌, min, [], ◌∷◌, ◌++◌, List, ◌≡◌, refl, ap, arith, Bytes, ok,
  err, not_found, false, true, length, length-replicate, replicate, map, concat, Action,
}
use fpga_emmc_card_reader.Transport.{Transport}
use fpga_emmc_card_reader.Transport.Stream.{IsStream}
use fpga_emmc_card_reader.Transport.Script.{
  Script, script, Plays, script-read_one, script-read_exact,
}
use fpga_emmc_card_reader.Protocol.Sectors as Sectors
use fpga_emmc_card_reader.Protocol.Sectors.Reading.{sector_packet, completion, read_sectors-concat}
use fpga_emmc_card_reader.App.Message.{WorkerMessage, dump_completed}
use fpga_emmc_card_reader.App.Task.{Desk, connect}
use fpga_emmc_card_reader.App.Access.{dump_to_file}
use fpga_emmc_card_reader.App.Bench.{bench}
use fpga_emmc_card_reader.App.Access.Endless.{IsFailure, dump_to_file-IsFailure}
use fpga_emmc_card_reader.App.Access.Dumping.{IsDumping, IsContent, dump_to_file-Holds}

-- The link, and the file.
abbrev Machine : Type 0
Machine = Script × Bytes

abbrev on_link : {A : Type 0} → Action Script A → Action Machine A
on_link m s = let r = m s.0 in (r.0, (r.1, s.1))

abbrev link : Transport Machine
link = record {
  write_all = λ d. on_link (script.write_all d);
  flush = on_link script.flush;
  read = λ n. on_link (script.read n);
  read_exact = λ n. on_link (script.read_exact n);
  set_timeout = λ n. on_link (script.set_timeout n);
  purge_input = on_link script.purge_input;
  is_fifo = λ s. false;
}

-- The link as it stands, and a file beside it that is `w`.
link-read_one :
    (w : Bytes) (s : Machine) (b : ℕ) (rest o : Bytes)
    → Plays s.0 (b ∷ rest) o × (s.1 ≡ w)
    → (s' : Machine) × (link.read 1 s ≡ (ok (b ∷ []), s')) × (Plays s'.0 rest o × (s'.1 ≡ w))
link-read_one w s b rest o h =
    let (s', e, h') = script-read_one s.0 b rest o h.0 in
    ((s', s.1), ap (λ r. (r.0, (r.1, s.1))) e, (h', h.1))

link-read_exact :
    (w : Bytes) (s : Machine) (xs rest o : Bytes)
    → Plays s.0 (xs ++ rest) o × (s.1 ≡ w)
    → (s' : Machine) × (link.read_exact (length xs) s ≡ (ok xs, s'))
      × (Plays s'.0 rest o × (s'.1 ≡ w))
link-read_exact w s xs rest o h =
    let (s', e, h') = script-read_exact s.0 xs rest o h.0 in
    ((s', s.1), ap (λ r. (r.0, (r.1, s.1))) e, (h', h.1))

abbrev link-IsStream : Bytes → IsStream link
unfolding script
link-IsStream w = record {
  At = λ s i o. Plays s.0 i o × (s.1 ≡ w);
  read_one = link-read_one w;
  read_exact_lem = link-read_exact w;
  write_all_lem = λ s d i o h. (
    (record s.0 { output = s.0.output ++ d }, s.1),
    refl,
    ((h.0.0, ap (λ (x : Bytes). x ++ d) h.0.1), h.1),
  );
  flush_lem = λ s i o h. (s, refl, h);
}

abbrev sector : Bytes
sector = replicate 512 0x55

abbrev answers : Bytes
answers = concat (map sector_packet (sector ∷ [])) ++ (completion ++ [])

-- The card reader has the answer to one read ready when the file is created.
abbrev desk : Desk Machine
desk = record {
  link = link;
  open_fifo = λ s. (err not_found, s);
  open_serial = λ port baud s. (ok tt, s);
  file_len = λ path s. (ok (length s.1), s);
  read_file = λ path s. (ok s.1, s);
  read_file_at = λ path at n s. (err not_found, s);
  create_file = λ path s. (ok tt, (record { input = answers; output = [] }, []));
  append_file = λ path d s. (ok tt, (s.0, s.1 ++ d));
  is_cancelled = λ s. (false, s);
  list_serial_ports = λ s. [];
  find_fifo_devices = λ s. [];
  nonce = λ s. (ok [], s);
  hmac = λ key d. [];
  from_utf8_lossy = λ d. "";
  from_utf16_lossy = λ d. "";
  volumes = record {
    read_sectors = λ lba n s. (err not_found, s);
    write_sectors = λ lba d s. (err not_found, s);
    now = λ s. (ok 0, s);
    from_utf8_lossy = λ d. d;
    name_of = λ d. "";
    stack = 10;
  };
}

abbrev content : ℕ → ℕ → Bytes
content lba n = replicate (n * 512) 0x55

replicate-append : (n m k b : ℕ) → n + m ≡ k → replicate k b ≡ replicate n b ++ replicate m b
replicate-append zero m k b h = ap (λ j. replicate j b) (behind k h)
  where
    behind : (k : ℕ) → 0 + m ≡ k → k ≡ m
    behind k h = omega arith
replicate-append (suc n) m zero b h = absurd (omega arith)
replicate-append (suc n) m (suc k) b h = ap (◌∷◌ b) (replicate-append n m k b (omega arith))

content-IsContent : IsContent content
content-IsContent = record {
  sized = λ lba n. length-replicate (n * 512) 0x55;
  joined = λ lba n m. replicate-append (n * 512) (m * 512) ((n + m) * 512) 0x55 (distributed n m);
}
  where
    distributed : (n m : ℕ) → n * 512 + m * 512 ≡ (n + m) * 512
    distributed n m = omega arith

abbrev port : Bytes
port = 0x2F ∷ []

-- The one read, of sector 5.
one_read :
    (s : Machine) (w : Bytes)
    → s.1 ≡ w
    → s.0.input ≡ answers
    → (s' : Machine) × (Sectors.read_sectors link 5 1 s ≡ (ok sector, s')) × (s'.1 ≡ w)
unfolding link-IsStream
one_read s w h k =
    let read =
      read_sectors-concat (link-IsStream w) 5 sector [] [] s.0.output (omega arith) (refl, tt) in
    let (s', e, h') = read.run s ((k, refl), h) in (s', e, h'.1)

desk-IsDumping : IsDumping desk port 3000000 [] content 5 6
unfolding connect
desk-IsDumping = record {
  Holds = λ s w p. (s.1 ≡ w) × (p ≡ 5 → s.0.input ≡ answers);
  opens = λ s. (s, refl);
  creates = λ s. ((record { input = answers; output = [] }, []), refl, (refl, λ e. refl));
  reads = reads;
  appends = λ s w d p h. ((s.0, s.1 ++ d), refl, (ap (λ (x : Bytes). x ++ d) h.0, h.1));
  calm = λ s. refl;
}
  where
    reads :
        (s : Machine) (w : Bytes) (p n : ℕ)
        → 5 ≤ p
        → p < 6
        → n ≡ min 64 (6 - p)
        → (s.1 ≡ w) × (p ≡ 5 → s.0.input ≡ answers)
        → (s' : Machine) × (Sectors.read_sectors link p n s ≡ (ok (content p n), s'))
          × ((s'.1 ≡ w) × (p + n ≡ 5 → s'.0.input ≡ answers))
    reads s w p n a b e h =
        let at : p ≡ 5 = omega arith in
        let one : n ≡ 1 = omega arith in
        let (s', r, k) = one_read s w h.0 (h.1 at) in
        rw (at, one) (s', r, (k, λ x. absurd (omega (arith, x))))

dump_to_file-Holds_example :
    let r = dump_to_file desk port 3000000 5 1 [] false (record { input = []; output = [] }, []) in
    (r.outcome ≡ ok tt)
    × desk-IsDumping.Holds r.after (content 5 1) 6
    × (before : List WorkerMessage) × (r.sent ≡ before ++ dump_completed (1 * 512) [] ∷ [])
dump_to_file-Holds_example =
    dump_to_file-Holds desk port 3000000 [] content content-IsContent 5 1 desk-IsDumping
      (record { input = []; output = [] }, []) (omega arith) (omega arith)

dump_to_file-IsFailure_example :
    IsFailure
      (dump_to_file (bench []) [] 3000000 0 70000 [] true (record { input = []; output = [] }))
dump_to_file-IsFailure_example =
    dump_to_file-IsFailure (bench []) [] 3000000 0 70000 [] true
      (record { input = []; output = [] }) (omega arith)
