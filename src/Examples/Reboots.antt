-- ===== src/Examples/Reboots.antt =====
-- Reboots by telnet.
use zzte.Service.Telnet.Session.{
  login, pure, read_until, reboot_session, send_command, send_reboot, with_connection, write, ◌>>=◌,
}
use zzte.Domain.{OltConfig}
use zzte.Service.Telnet.Session.{Peer, Dial, reboot_onu}
use zzte.Service.Telnet.Sends.{written}
use zzte.Service.Telnet.Closing.{closing}
use zzte.Service.Telnet.Dialogue.{opening, IsDialogue, reboot_onu-IsDialogue, reboot_onu-closing}
use zzte.Handler.Control.{RebootRequest, ControlState, reboot_handler}
use zzte.Handler.Control.Reboot.{IsHandled, reboot_handler-IsHandled}
use zzte.Examples.Data.{no_entries, request_of}
use zzte.Examples.Olts.{olt}
use zzte.Examples.System.{manager}
use zzte.Prelude.{
  Bool, [], codes, if◌then◌else◌, inr, int_eq, leb, length, nat_eq, none, pos, refl, some, text_eq,
  ◌++◌, ◌≡◌,
}

-- A device that takes every line and asks for a confirmation.
abbrev willing : Peer
willing = record {
  refuses = λ events text. none;
  answers = λ events delims. inr (codes "Confirm? [y/n]");
}

abbrev answered : Dial
answered address = inr willing

-- One that takes the two lines of the login, and no more.
abbrev stubborn : Peer
stubborn = record {
  refuses = λ events text. if leb 2 (length (written events)) then some (codes "EOF") else none;
  answers = λ events delims. inr (codes ">");
}

abbrev config : OltConfig
config = olt.config

reboot_onu-IsDialogue_example :
    IsDialogue
      (opening config (pos 1) (pos 2) (pos 7))
      (reboot_onu (λ address. inr stubborn) config (pos 1) (pos 2) (pos 7))
reboot_onu-IsDialogue_example =
    reboot_onu-IsDialogue (λ address. inr stubborn) config (pos 1) (pos 2) (pos 7)

succeeds : (reboot_onu answered config (pos 1) (pos 2) (pos 7)).1 ≡ inr tt
unfolding reboot_onu login pure read_until reboot_session send_command send_reboot with_connection
    write ◌>>=◌
succeeds = refl

reboot_onu-closing_example :
    (confirmed : Bool) × (written (reboot_onu answered config (pos 1) (pos 2) (pos 7)).0
      ≡ opening config (pos 1) (pos 2) (pos 7) ++ closing confirmed)
reboot_onu-closing_example =
    reboot_onu-closing answered config (pos 1) (pos 2) (pos 7) willing refl (λ events text. refl)
      succeeds

abbrev request : RebootRequest
request = record { olt_id = codes "c320"; board = pos 1; pon = pos 2; onu_id = pos 7 }

abbrev state : ControlState
state = record { manager = record manager { cache = some [] }; activity = no_entries }

reboot_handler_example :
    IsHandled request state (reboot_handler answered (request_of none) (some request) state)
reboot_handler_example = reboot_handler-IsHandled answered (request_of none) request state
