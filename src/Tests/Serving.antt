-- ===== src/Tests/Serving.antt =====
-- Three connections to the local server, and the display of a register.
use msp430_emulator.Base.{◌≡◌, some, [], ◌∷◌, true, false, get_elem?, arith, refl, List}
use msp430_emulator.Base.Hex.{read_hex, four_digits}
use msp430_emulator.Base.Decimal.{decimal}
use msp430_emulator.Machine.{Result, ok, fault, get_reg_ptr, load16, and_then}
use msp430_emulator.Display.{update_register_display, shown_value}
use msp430_emulator.Display.Shown.{value_read, update_register_display_lem}
use msp430_emulator.LocalServer.{
  LocalServer, idle_server, Callback, http, writeable, established, serve_calls, serve_call,
  web_send,
}
use msp430_emulator.LocalServer.Ports.{ports_read, read_ports, ports_lem}
use msp430_emulator.Tests.Machines.{with_r5, with_r5-IsWellFormed}

abbrev after : Result LocalServer → LocalServer
after (ok s) = s
after (fault f) = idle_server

-- `fork` fails for the second of them.
abbrev three_connections : List Callback
three_connections =
    http 1
    ∷ established 1
    ∷ http 2
    ∷ writeable 1 true
    ∷ established 2
    ∷ writeable 2 false
    ∷ writeable 3 true
    ∷ []

abbrev after_three : LocalServer
after_three = after (serve_calls three_connections idle_server)

after_three-ok : serve_calls three_connections idle_server ≡ ok after_three
unfolding serve_calls serve_call web_send
after_three-ok = refl

-- All ports are sent to the second connection.
sent_to_the_last : after_three.sent ≡ (2, decimal 9001) ∷ (2, decimal 9002) ∷ (2, decimal 9003) ∷ []
unfolding serve_calls serve_call web_send
sent_to_the_last = refl

ports_lem_example :
    (ports_read after_three.children ≡ some 9001 ∷ some 9003 ∷ [])
    × (read_ports after_three.sent ≡ 9001 ∷ 9002 ∷ 9003 ∷ [])
ports_lem_example = ports_lem three_connections after_three after_three-ok (omega arith)

update_register_display_lem_example :
    (get_elem? (update_register_display (with_r5 0xBEEF)) 5
      ≡ some (record { message = 0x15 ∷ 4 ∷ four_digits 0xBEEF; length = 6; opcode = 0 }))
    × (read_hex 0 (four_digits 0xBEEF) ≡ 0xBEEF)
    × (value_read (and_then (get_reg_ptr 5 (with_r5 0xBEEF)) load16) ≡ some 0xBEEF)
unfolding shown_value
update_register_display_lem_example =
    update_register_display_lem (with_r5 0xBEEF) 5 (with_r5-IsWellFormed 0xBEEF (omega arith)) refl
      (omega arith)
