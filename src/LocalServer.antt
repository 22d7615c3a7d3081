-- ===== src/LocalServer.antt =====
-- debugger/server/server.c: the server that starts an emulator for each connection and tells the
-- browser the port of it, and how main.cpp reads that port. `lws_write` and the start of a child
-- process are outputs. The signal handlers and the set-up of the websocket library are left out.
pub mod Ports
use msp430_emulator.Base.{
  ℕ, ◌+◌, Bool, true, false, Option, none, some, List, [], ◌∷◌, ◌++◌, bytes, u32,
}
use msp430_emulator.Base.Decimal.{decimal, read_decimal}
use msp430_emulator.Machine.{Result, ok, fault, Fault}

-- `ws`, the static `new_ws_port` of `callback_emu`, the arguments of the processes that were
-- started, and the texts that were sent, each with the connection that it was sent to.
pub record LocalServer : Type 0 where
  pub ws : Option ℕ
  pub new_ws_port : ℕ
  pub children : List (List (List ℕ))
  pub sent : List (ℕ × List ℕ)

abbrev pub idle_server : LocalServer
idle_server = record { ws = none; new_ws_port = 9001; children = []; sent = [] }

-- The calls of the library: `callback_http`, and `callback_emu` by its reason. A writable connection
-- comes with whether the system can `fork`.
pub data Callback : Type 0 where
  http : ℕ → Callback
  protocol_init : ℕ → Callback
  writeable : ℕ → Bool → Callback
  established : ℕ → Callback
  other : ℕ → Callback

-- `web_send`: the text goes to `ws`.
unfoldable pub web_send : List ℕ → LocalServer → Result LocalServer
web_send buf s = elim s.ws [
  | none ↦ fault Fault.null_pointer
  | some w ↦ ok (record s { sent = s.sent ++ ((w, buf) ∷ []) })
]

-- `fork` and `execvp(args[0], args)` in the child. Where `fork` fails, its -1 is taken for a process.
abbrev pub start_child : Bool → List ℕ → LocalServer → LocalServer
start_child false port_str s = s
start_child true port_str s =
    let args = bytes "nice" ∷ bytes "-20" ∷ bytes "./MSP430" ∷ port_str ∷ [] in
    record s { children = s.children ++ (args ∷ []) }

abbrev pub next_port : Result LocalServer → Result LocalServer
next_port (ok s) = ok (record s { new_ws_port = u32 (s.new_ws_port + 1) })
next_port (fault f) = fault f

unfoldable pub serve_call : Callback → LocalServer → Result LocalServer
serve_call (http wsi) s = ok (record s { ws = some wsi })
serve_call (protocol_init wsi) s = ok (record s { ws = some wsi })
serve_call (writeable wsi forks) s =
    let port_str = decimal s.new_ws_port in
    next_port (web_send port_str (start_child forks port_str s))
serve_call (established wsi) s = ok s
serve_call (other wsi) s = ok s

abbrev pub then_serve : (LocalServer → Result LocalServer) → Result LocalServer → Result LocalServer
then_serve k (ok s) = k s
then_serve k (fault f) = fault f

unfoldable pub serve_calls : List Callback → LocalServer → Result LocalServer
serve_calls [] s = ok s
serve_calls (c ∷ cs) s = then_serve (serve_calls cs) (serve_call c s)

-- `deb->ws_port = strtoul(argv[1], NULL, 10)` of main.cpp for the arguments of a child: `nice` takes
-- the first of them, so that `argv[0]` is the third. `none` where there is no port.
unfoldable pub ws_port : List (List ℕ) → Option ℕ
ws_port (a ∷ b ∷ program ∷ port ∷ rest) = some (u32 (read_decimal 0 port))
ws_port (a ∷ b ∷ c ∷ []) = none
ws_port (a ∷ b ∷ []) = none
ws_port (a ∷ []) = none
ws_port [] = none
