-- ===== src/Adapter/Tests.antt =====
-- The theorems about the adapter at concrete bytes, over a link that plays a script.
use fpga_emmc_card_reader.Base.{
  [], ◌∷◌, ◌++◌, ◌≡◌, refl, arith, false, List, some, replicate, take, concat, Bytes, ok,
}
use fpga_emmc_card_reader.Transport.Script.{Script, script, script-IsStream}
use fpga_emmc_card_reader.Transport.Stream.{Run}
use fpga_emmc_card_reader.Adapter.{ProgressReporter, read, position_from}
use fpga_emmc_card_reader.Adapter.Reading.{IsQuiet, answers, read_commands, read-take}

-- A progress display that shows nothing.
abbrev silent : ProgressReporter Script
silent = record { report = λ n total s. (ok tt, s); is_cancelled = λ s. (ok false, s) }

silent-IsQuiet : IsQuiet script-IsStream silent
silent-IsQuiet = record {
  goes_on = λ i o. record { run = λ s h. (s, refl, h) };
  reports = λ n total i o. record { run = λ s h. (s, refl, h) };
}

abbrev two_sectors : List Bytes
two_sectors = replicate 512 0x11 ∷ replicate 512 0x22 ∷ []

-- 1000 bytes from an address in the sector 5: they begin where the sector begins.
read-take_example :
    Run script-IsStream
      (read script silent 2600 1000)
      (answers 2 two_sectors ++ 7 ∷ [])
      []
      (ok (take 1000 (concat two_sectors)))
      (7 ∷ [])
      ([] ++ read_commands 2 5 2)
read-take_example =
    read-take script-IsStream silent-IsQuiet 2600 1000 two_sectors (7 ∷ []) [] refl (omega arith)
      (refl, (refl, tt))

abbrev wanted : Bytes
wanted = 1 ∷ 2 ∷ []

abbrev got : Bytes
got = 1 ∷ 3 ∷ []

third : position_from 0 (0xFF ∷ 0 ∷ 5 ∷ 6 ∷ []) ≡ some 2
unfolding position_from
third = refl
