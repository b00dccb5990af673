-- ===== src/Gui/Tests.antt =====
-- A machine whose card reader plays a script, and what the window makes of it.
use fpga_emmc_card_reader.Base.{
  [], ◌∷◌, List, true, false, ◌≡◌, refl, Bytes, ok, panic, some, arith,
}
use fpga_emmc_card_reader.Transport.Script.{Script, script}
use fpga_emmc_card_reader.App.Bench.{bench}
use fpga_emmc_card_reader.Protocol.Ids.{cmd_erase}
use fpga_emmc_card_reader.Protocol.Packet.{
  send_command, send_command_no_recv, recv_response, wait_header, wait_byte, command_packet,
}
use fpga_emmc_card_reader.Protocol.Packet.Laws.{response_packet}
use fpga_emmc_card_reader.Protocol.Commands as Commands
use fpga_emmc_card_reader.Crc8.{crc8}
use fpga_emmc_card_reader.App.Message.{WorkerMessage}
use fpga_emmc_card_reader.App.Task as Task
use fpga_emmc_card_reader.App.Task.{Desk}
use fpga_emmc_card_reader.App.Access as Access
use fpga_emmc_card_reader.App.Job as Job
use fpga_emmc_card_reader.App.Job.{run}
use fpga_emmc_card_reader.App.State.{AppState, new, is_busy, set_running}
use fpga_emmc_card_reader.Gui.{EmmcApp, process_messages}
use fpga_emmc_card_reader.Gui.Busy.{process_messages-run}
use fpga_emmc_card_reader.Gui.Panels.{erase_clicked, secure_erase_clicked, write_ext_csd_clicked}
use fpga_emmc_card_reader.Gui.Confirm.{confirmed, started_now, confirmed-starts}

abbrev desk : Desk Script
desk = bench []

abbrev answering : Script
answering = record { input = response_packet cmd_erase 0 []; output = [] }

-- Waiting for a thread.
abbrev waiting : EmmcApp
waiting = record { state = set_running [] new; last_activity = 0; keepalive_pending = false }

abbrev port : Bytes
port = 0x2F ∷ []

abbrev after_erase : List WorkerMessage → EmmcApp
after_erase sent = process_messages 7 sent waiting

ends : (run desk port 3000000 (Job.erase_sectors 5 2) answering).outcome ≡ ok tt
unfolding run Access.erase_sectors Task.on_connection Task.attempt Task.connect Task.last Task.send
    Task.pure Commands.erase Commands.command_ok send_command send_command_no_recv recv_response
    script wait_header wait_byte crc8 command_packet
ends = refl

process_messages-run_example :
    is_busy (after_erase (run desk port 3000000 (Job.erase_sectors 5 2) answering).sent).state
    ≡ false
process_messages-run_example =
    process_messages-run desk port 3000000 (Job.erase_sectors 5 2) answering 7 waiting
      (λ e. apart e)
  where
    apart : (run desk port 3000000 (Job.erase_sectors 5 2) answering).outcome ≡ panic → ⊥
    apart e = cc (ends, e)

abbrev pressed : AppState
pressed = record new { selected_port = port; connected = true }

confirmed-starts_example :
    (confirmed desk pressed answering (erase_clicked (some 70) (some 9) pressed)
      ≡ started_now desk pressed answering (Job.erase_sectors 70 9))
    × (confirmed desk pressed answering (secure_erase_clicked (some 70) (some 9) pressed)
        ≡ started_now desk pressed answering (Job.secure_erase_sectors 70 9))
    × (confirmed desk pressed answering (write_ext_csd_clicked (some 33) (some 1) pressed)
        ≡ started_now desk pressed answering (Job.write_ext_csd 33 1))
confirmed-starts_example =
    confirmed-starts desk pressed answering 70 9 33 1 free (omega arith) (omega arith) (omega arith)
      (omega arith)
  where
    free : is_busy pressed ≡ false
    free = unfold is_busy in refl
