-- ===== src/LocalServer/Ports.antt =====
-- The ports that the processes read from their arguments, and those that are sent to browsers.
use msp430_emulator.Base.{
  Bool, true, false, ℕ, zero, suc, ◌+◌, ◌^◌, ◌<◌, ◌≡◌, Option, none, some, List, [], ◌∷◌, ◌++◌,
  arith, refl, sym, subst, ◌∙◌, u32, append-nil, append_assoc, ◌-◌,
}
use msp430_emulator.Base.Decimal.{decimal, read_decimal, read_decimal-decimal}
use msp430_emulator.Machine.{ok, fault, Fault}
use msp430_emulator.LocalServer.{
  LocalServer, idle_server, Callback, http, protocol_init, writeable, established, other, web_send,
  start_child, next_port, serve_call, then_serve, serve_calls, ws_port,
}

-- How many of the calls are for a connection that has become writable.
abbrev pub served : List Callback → ℕ
served [] = 0
served (writeable w forks ∷ cs) = suc (served cs)
served (http w ∷ cs) = served cs
served (protocol_init w ∷ cs) = served cs
served (established w ∷ cs) = served cs
served (other w ∷ cs) = served cs

abbrev pub from : ℕ → ℕ → List ℕ
from port zero = []
from port (suc n) = port ∷ from (port + 1) n

-- The ports of the calls whose `fork` succeeds, where the next call for a writable connection has
-- the port that is given.
abbrev pub started_from : ℕ → List Callback → List ℕ
started_from port [] = []
started_from port (writeable w true ∷ cs) = port ∷ started_from (port + 1) cs
started_from port (writeable w false ∷ cs) = started_from (port + 1) cs
started_from port (http w ∷ cs) = started_from port cs
started_from port (protocol_init w ∷ cs) = started_from port cs
started_from port (established w ∷ cs) = started_from port cs
started_from port (other w ∷ cs) = started_from port cs

abbrev pub ports_read : List (List (List ℕ)) → List (Option ℕ)
ports_read [] = []
ports_read (args ∷ rest) = ws_port args ∷ ports_read rest

abbrev pub read_ports : List (ℕ × List ℕ) → List ℕ
read_ports [] = []
read_ports (p ∷ rest) = read_decimal 0 p.1 ∷ read_ports rest

abbrev pub each_some : List ℕ → List (Option ℕ)
each_some [] = []
each_some (n ∷ ns) = some n ∷ each_some ns

ports_read-append :
    (a : List (List (List ℕ))) (b : List (List ℕ))
    → ports_read (a ++ (b ∷ [])) ≡ ports_read a ++ (ws_port b ∷ [])
ports_read-append [] b = refl
ports_read-append (x ∷ a) b = rw (ports_read-append a b) refl

read_ports-append :
    (a : List (ℕ × List ℕ)) (p : ℕ × List ℕ)
    → read_ports (a ++ (p ∷ [])) ≡ read_ports a ++ (read_decimal 0 p.1 ∷ [])
read_ports-append [] p = refl
read_ports-append (x ∷ a) p = rw (read_ports-append a p) refl

-- The ports of the children grow by `own`, and those that were sent by `n` ports in order.
record Grows (own : List ℕ) (n : ℕ) (s t : LocalServer) : Type 0 where
  started : ports_read t.children ≡ ports_read s.children ++ each_some own
  told : read_ports t.sent ≡ read_ports s.sent ++ from s.new_ws_port n

-- The server after a port was sent to `w`.
abbrev told_to : Bool → ℕ → LocalServer → LocalServer
told_to forks w s =
    let port_str = decimal s.new_ws_port in
    let spawned = start_child forks port_str s in
    record spawned {
      sent = spawned.sent ++ ((w, port_str) ∷ []);
      new_ws_port = u32 (spawned.new_ws_port + 1);
    }

Grows-none : (s : LocalServer) → Grows [] 0 s s
Grows-none s = record {
  started = sym (append-nil (ports_read s.children));
  told = sym (append-nil (read_ports s.sent));
}

-- The text that was sent, in front of the others.
told-Grows :
    (n w : ℕ) (s : LocalServer) (later : List ℕ)
    → s.new_ws_port + suc n < 2 ^ 16
    → later
      ≡ read_ports (s.sent ++ ((w, decimal s.new_ws_port) ∷ [])) ++ from (u32 (s.new_ws_port + 1)) n
    → later ≡ read_ports s.sent ++ from s.new_ws_port (suc n)
told-Grows n w s later h e =
    let port : ℕ = s.new_ws_port in
    let next : u32 (port + 1) ≡ port + 1 = omega arith in
    let read : read_decimal 0 (decimal port) ≡ port = read_decimal-decimal port (omega arith) in
    e
    ∙ rw (next, read_ports-append s.sent _, read)
        (append_assoc (read_ports s.sent) (port ∷ []) (from (port + 1) n))

Grows-told :
    (own : List ℕ) (n w : ℕ) (s t : LocalServer)
    → s.new_ws_port + suc n < 2 ^ 16
    → Grows own n (told_to true w s) t
    → Grows (s.new_ws_port ∷ own) (suc n) s t
unfolding ws_port
Grows-told own n w s t h g =
    let port : ℕ = s.new_ws_port in
    let read : read_decimal 0 (decimal port) ≡ port = read_decimal-decimal port (omega arith) in
    let same : u32 (read_decimal 0 (decimal port)) ≡ port = rw read (omega arith) in
    record {
      started =
          g.started
          ∙ rw (ports_read-append s.children _, same)
              (append_assoc (ports_read s.children) (some port ∷ []) (each_some own));
      told = told-Grows n w s _ h g.told;
    }

Grows-failed :
    (own : List ℕ) (n w : ℕ) (s t : LocalServer)
    → s.new_ws_port + suc n < 2 ^ 16
    → Grows own n (told_to false w s) t
    → Grows own (suc n) s t
Grows-failed own n w s t h g = record { started = g.started; told = told-Grows n w s _ h g.told }

-- A call for a writable connection that runs into no fault finds the connection to send to.
sent_to :
    {P : Type 0} (forks : Bool) (cs : List Callback) (s t : LocalServer)
    → then_serve
        (serve_calls cs)
        (next_port (web_send (decimal s.new_ws_port) (start_child forks (decimal s.new_ws_port) s)))
      ≡ ok t
    → ((w : ℕ) → serve_calls cs (told_to forks w s) ≡ ok t → P)
    → P
unfolding web_send
sent_to {P} forks cs s t e k = found (start_child forks (decimal s.new_ws_port) s).ws e k
  where
    found :
        (ws : Option ℕ)
        → then_serve (serve_calls cs) (
            next_port (elim ws [
              | none ↦ fault Fault.null_pointer
              | some w ↦ ok (record (start_child forks (decimal s.new_ws_port) s) {
                sent =
                    (start_child forks (decimal s.new_ws_port) s).sent
                    ++ ((w, decimal s.new_ws_port) ∷ []);
              })
            ]))
          ≡ ok t
        → ((w : ℕ) → serve_calls cs (told_to forks w s) ≡ ok t → P)
        → P
    found none run go = cc
    found (some w) run go = go w run

serve_calls-Grows :
    (cs : List Callback) (s t : LocalServer)
    → serve_calls cs s ≡ ok t
    → s.new_ws_port + served cs < 2 ^ 16
    → Grows (started_from s.new_ws_port cs) (served cs) s t
unfolding serve_calls serve_call web_send
serve_calls-Grows [] s t e h = let same : s ≡ t = cc in subst (Grows [] 0 s) same (Grows-none s)
serve_calls-Grows (writeable wsi true ∷ cs) s t e h = sent_to true cs s t e (λ w run.
    Grows-told _ (served cs) w s t h (
      subst (λ port. Grows (started_from port cs) (served cs) (told_to true w s) t) (omega arith)
        (serve_calls-Grows cs (told_to true w s) t run (omega arith))))
serve_calls-Grows (writeable wsi false ∷ cs) s t e h = sent_to false cs s t e (λ w run.
    Grows-failed _ (served cs) w s t h (
      subst (λ port. Grows (started_from port cs) (served cs) (told_to false w s) t) (omega arith)
        (serve_calls-Grows cs (told_to false w s) t run (omega arith))))
serve_calls-Grows (http wsi ∷ cs) s t e h =
    let g = serve_calls-Grows cs (record s { ws = some wsi }) t e h in
    record { started = g.started; told = g.told }
serve_calls-Grows (protocol_init wsi ∷ cs) s t e h =
    let g = serve_calls-Grows cs (record s { ws = some wsi }) t e h in
    record { started = g.started; told = g.told }
serve_calls-Grows (established wsi ∷ cs) s t e h = serve_calls-Grows cs s t e h
serve_calls-Grows (other wsi ∷ cs) s t e h = serve_calls-Grows cs s t e h

-- After any calls of the local server that run into no fault, fewer than 2^16 - 9001 of them for a
-- connection that became writable, the texts that were sent to browsers, read back, are the ports
-- from 9001 on, one for each of those calls in order, and the ports that the processes started read
-- from their arguments are those of the calls whose `fork` succeeded, in order; so the port of a
-- call whose `fork` failed is sent and no process has it.
pub ports_lem :
    (cs : List Callback) (t : LocalServer)
    → serve_calls cs idle_server ≡ ok t
    → served cs < 2 ^ 16 - 9001
    → (ports_read t.children ≡ each_some (started_from 9001 cs))
      × (read_ports t.sent ≡ from 9001 (served cs))
ports_lem cs t e h =
    let g = serve_calls-Grows cs idle_server t e (omega arith) in (g.started, g.told)
