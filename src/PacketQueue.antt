-- ===== src/PacketQueue.antt =====
-- debugger/websockets/packet_queue.c: the packets that wait for the web interface. The chain from
-- `pending_packets_head` is a list; `pending_packets_tail` is set with the first packet and never
-- read, and is left out. The copy of the item on the heap is the item.
pub mod Fifo
pub mod Race
use msp430_emulator.Base.{
  ℕ, suc, ◌+◌, ◌-◌, ◌%◌, ◌^◌, Bool, true, false, Option, none, some, List, [], ◌∷◌, ltb, ◌&&◌, not,
  u32, if◌then◌else◌,
}

pub record Packet : Type 0 where
  pub message : List ℕ
  pub length : ℕ
  pub opcode : ℕ

pub record Server : Type 0 where
  pub pending_packets_head : List Packet
  pub packets_queued : ℕ
  pub spin_lock : Bool

-- How a call ends: with a value, or never, where it waits for a lock that nobody else holds.
pub data Outcome (A : Type 0) : Type 0 where
  returned : A → Server → Outcome A
  spins : Outcome A

-- One call after another.
abbrev pub and_next : {A B : Type 0} → Outcome A → (A → Server → Outcome B) → Outcome B
and_next (returned a s) k = k a s
and_next spins k = spins

abbrev pub init_packet_queue : Server
init_packet_queue = record { pending_packets_head = []; packets_queued = 0; spin_lock = false }

abbrev pub is_null : List Packet → Bool
is_null [] = true
is_null (p ∷ q) = false

unfoldable pub packet_queue_empty : Server → Bool
packet_queue_empty s =
    if ltb 0 s.packets_queued && not (is_null s.pending_packets_head) then false else true

-- The walk to the last packet, and the new one behind it.
unfoldable pub link_last : List Packet → Packet → List Packet
link_last [] p = p ∷ []
link_last (cur ∷ next) p = cur ∷ link_last next p

unfoldable pub packet_enqueue : Packet → Server → Outcome Unit
packet_enqueue p s =
    if s.spin_lock
    then spins
    else returned tt (record {
      pending_packets_head = link_last s.pending_packets_head p;
      packets_queued = u32 (s.packets_queued + 1);
      spin_lock = false;
    })

-- The first packet and the rest of the chain. Without a packet, the variable returned is not
-- assigned, and the lock stays.
unfoldable pub unlink_first : List Packet → Server → Outcome (Option Packet)
unlink_first [] s = returned none s
unlink_first (head ∷ next) s = returned (some head) (record {
  pending_packets_head = next;
  packets_queued = u32 (s.packets_queued + 2 ^ 32 - 1);
  spin_lock = false;
})

unfoldable pub packet_dequeue : Server → Outcome (Option Packet)
packet_dequeue s =
    if s.spin_lock
    then spins
    else let locked = record s { spin_lock = true } in
      if packet_queue_empty locked
      then returned none locked
      else unlink_first s.pending_packets_head locked
