-- ===== src/PacketQueue/Race.antt =====
-- Two threads in `packet_enqueue` of debugger/websockets/packet_queue.c, the processor's and that
-- of the web interface, as interleaved steps on the server they share. The test of the lock and the
-- assignment to it are two steps. A packet of the chain is its place in the list.
pub mod Lost
use msp430_emulator.Base.{
  ℕ, suc, ◌+◌, ◌≡◌, true, false, Option, none, some, List, [], ◌∷◌, ◌++◌, take, length, u32,
}
use msp430_emulator.PacketQueue.{Packet, Server}

-- Where a thread is in a call: before `while (s->spin_lock)`, before `s->spin_lock = true`, before
-- the test of the head and the walk, before the new packet is linked behind `cur`, before the
-- count, and behind the call. `cur` is `none` where the head was null.
pub data Pc : Type 0 where
  testing : Packet → Pc
  locking : Packet → Pc
  walking : Packet → Pc
  linking : Packet → Option ℕ → Pc
  counting : Pc
  ended : Pc

-- The last packet of the chain.
unfoldable pub find_last : List Packet → Option ℕ
find_last [] = none
find_last (head ∷ next) = some (length next)

-- `s->pending_packets_head = …` and `cur->next = …`; `next` of the new packet is null.
unfoldable pub link_behind : Option ℕ → Packet → List Packet → List Packet
link_behind none p head = p ∷ []
link_behind (some cur) p head = take (cur + 1) head ++ p ∷ []

-- A step of one thread.
pub data Move (s : Server) : Pc → Server → Pc → Type 0 where
  spin : {p : Packet} → s.spin_lock ≡ true → Move s (Pc.testing p) s (Pc.testing p)
  see_free : {p : Packet} → s.spin_lock ≡ false → Move s (Pc.testing p) s (Pc.locking p)
  lock : {p : Packet} → Move s (Pc.locking p) (record s { spin_lock = true }) (Pc.walking p)
  walk : {p : Packet} → Move s (Pc.walking p) s (Pc.linking p (find_last s.pending_packets_head))
  link :
      {p : Packet} {cur : Option ℕ}
      → Move s
          (Pc.linking p cur)
          (record s { pending_packets_head = link_behind cur p s.pending_packets_head })
          Pc.counting
  count :
      Move s Pc.counting
        (record s { packets_queued = u32 (s.packets_queued + 1); spin_lock = false })
        Pc.ended

pub record System : Type 0 where
  pub server : Server
  pub processor : Pc
  pub web : Pc

-- A step of either thread.
pub data Step (x : System) : System → Type 0 where
  by_processor :
      {s : Server} {c : Pc}
      → Move x.server x.processor s c
      → Step x (record { server = s; processor = c; web = x.web })
  by_web :
      {s : Server} {c : Pc}
      → Move x.server x.web s c
      → Step x (record { server = s; processor = x.processor; web = c })

pub data Steps : System → System → Type 0 where
  start : {x : System} → Steps x x
  then : {x y z : System} → Step x y → Steps y z → Steps x z
