-- ===== src/PacketQueue/Fifo.antt =====
-- The packet queue against a list to which packets are appended and from whose front they leave.
use msp430_emulator.Base.{
  ℕ, suc, ◌+◌, ◌-◌, ◌^◌, ◌<◌, ◌≡◌, true, false, Option, none, some, List, [], ◌∷◌, ◌++◌, length,
  length-append, arith, refl, ap, ltb, u32,
}
use msp430_emulator.PacketQueue.{
  and_next, Packet, Server, Outcome, returned, spins, packet_enqueue, packet_dequeue,
  packet_queue_empty, link_last, unlink_first,
}

-- Calls of the two threads, each of which runs between taking the lock and giving it back.
pub data Call : Type 0 where
  enqueue : Packet → Call
  dequeue : Call

-- Each packet that a call of `packet_dequeue` returned, in order.
abbrev pub deliver : Option Packet → Outcome (List (Option Packet)) → Outcome (List (Option Packet))
deliver r m = and_next m (λ rs s. returned (r ∷ rs) s)

unfoldable pub run : List Call → Server → Outcome (List (Option Packet))
run [] s = returned [] s
run (enqueue p ∷ cs) s = and_next (packet_enqueue p s) (λ u t. run cs t)
run (dequeue ∷ cs) s = and_next (packet_dequeue s) (λ r t. deliver r (run cs t))

-- The specification: calls that take a queue to another and deliver packets, none of them on an
-- empty queue.
pub data Fifo : List Call → List Packet → List Packet → List Packet → Type 0 where
  idle : {q : List Packet} → Fifo [] q [] q
  put :
      {cs : List Call} {p : Packet} {q out q' : List Packet}
      → Fifo cs (q ++ p ∷ []) out q'
      → Fifo (enqueue p ∷ cs) q out q'
  take :
      {cs : List Call} {p : Packet} {q out q' : List Packet}
      → Fifo cs q out q'
      → Fifo (dequeue ∷ cs) (p ∷ q) (p ∷ out) q'

-- A server with the lock free and the counter right.
abbrev pub ready : List Packet → Server
ready q = record { pending_packets_head = q; packets_queued = length q; spin_lock = false }

abbrev pub somes : List Packet → List (Option Packet)
somes [] = []
somes (p ∷ q) = some p ∷ somes q

pub link_last-append : (q : List Packet) (p : Packet) → link_last q p ≡ q ++ p ∷ []
unfolding link_last
link_last-append [] p = refl
link_last-append (x ∷ q) p = rw (link_last-append q p) refl

pub packet_enqueue-ready :
    (q : List Packet) (p : Packet)
    → length q + 1 < 2 ^ 32
    → packet_enqueue p (ready q) ≡ returned tt (ready (q ++ p ∷ []))
unfolding packet_enqueue
packet_enqueue-ready q p h =
    rw (link_last-append q p, length-append q (p ∷ []))
      (ap
        (λ n.
          returned tt
            (record { pending_packets_head = q ++ p ∷ []; packets_queued = n; spin_lock = false }))
        wraps)
  where
    wraps : u32 (length q + 1) ≡ length q + 1
    wraps = omega arith

pub packet_dequeue-ready :
    (q : List Packet) (p : Packet)
    → length q + 1 < 2 ^ 32
    → packet_dequeue (ready (p ∷ q)) ≡ returned (some p) (ready q)
unfolding packet_dequeue packet_queue_empty unlink_first
packet_dequeue-ready q p h = rw (counted, lowered) refl
  where
    counted : ltb 0 (suc (length q)) ≡ true
    counted = ground arith

    lowered : u32 (suc (length q) + 2 ^ 32 - 1) ≡ length q
    lowered = omega arith

packet_dequeue_empty :
    packet_dequeue (ready []) ≡ returned none (record (ready []) { spin_lock = true })
unfolding packet_dequeue packet_queue_empty
packet_dequeue_empty = refl

-- From a server with the lock free and the counter right, any sequence of calls that a first-in
-- first-out list allows, each of them run from taking the lock to giving it back, returns the
-- packets of that list in order and leaves its rest queued, the lock free and the counter right, if
-- the packets queued and the calls are fewer than 2^32.
pub run-Fifo :
    (cs : List Call) (q out q' : List Packet)
    → length q + length cs < 2 ^ 32
    → Fifo cs q out q'
    → run cs (ready q) ≡ returned (somes out) (ready q')
unfolding run
run-Fifo [] q _ _ h idle = refl
run-Fifo (enqueue p ∷ cs) q out q' h (put f) =
    rw (packet_enqueue-ready q p (omega arith))
      (run-Fifo cs (q ++ p ∷ []) out q' (omega (arith, length-append q (p ∷ []))) f)
run-Fifo (dequeue ∷ cs) [] out q' h f = elim f [ ]
run-Fifo (dequeue ∷ cs) (p ∷ q) [] q' h f = elim f [ ]
run-Fifo (dequeue ∷ cs) (p ∷ q) (_ ∷ out) q' h (take f) =
    rw (packet_dequeue-ready q p (omega arith), run-Fifo cs q out q' (omega arith) f) refl

-- How any calls from a queue end: with the packets that the list delivers; with an unassigned packet
-- and the lock taken, where the last call is the first dequeue from an empty queue; or never, where
-- that dequeue is not the last call.
pub data Ends (cs : List Call) (q : List Packet) : Outcome (List (Option Packet)) → Type 0 where
  delivers : (out q' : List Packet) → Fifo cs q out q' → Ends cs q (returned (somes out) (ready q'))
  unassigned :
      (before : List Call) (out : List Packet)
      → cs ≡ before ++ dequeue ∷ []
      → Fifo before q out []
      → Ends cs q (returned (somes out ++ none ∷ []) (record (ready []) { spin_lock = true }))
  hangs :
      (before after : List Call) (c : Call) (out : List Packet)
      → cs ≡ before ++ dequeue ∷ c ∷ after
      → Fifo before q out []
      → Ends cs q spins

Ends-enqueue :
    {x : Outcome (List (Option Packet))} (p : Packet) (cs : List Call) (q : List Packet)
    → Ends cs (q ++ p ∷ []) x
    → Ends (enqueue p ∷ cs) q x
Ends-enqueue p cs q (delivers out q' f) = delivers out q' (put f)
Ends-enqueue p cs q (unassigned before out e f) =
    unassigned (enqueue p ∷ before) out (ap (λ l. enqueue p ∷ l) e) (put f)
Ends-enqueue p cs q (hangs before after c out e f) =
    hangs (enqueue p ∷ before) after c out (ap (λ l. enqueue p ∷ l) e) (put f)

Ends-dequeue :
    {x : Outcome (List (Option Packet))} (p : Packet) (cs : List Call) (q : List Packet)
    → Ends cs q x
    → Ends (dequeue ∷ cs) (p ∷ q) (deliver (some p) x)
Ends-dequeue p cs q (delivers out q' f) = delivers (p ∷ out) q' (take f)
Ends-dequeue p cs q (unassigned before out e f) =
    unassigned (dequeue ∷ before) (p ∷ out) (ap (λ l. dequeue ∷ l) e) (take f)
Ends-dequeue p cs q (hangs before after c out e f) =
    hangs (dequeue ∷ before) after c (p ∷ out) (ap (λ l. dequeue ∷ l) e) (take f)

-- Whatever is called next waits for the lock.
run-locked :
    (q : List Packet) (n : ℕ) (c : Call) (cs : List Call)
    → run (c ∷ cs) (record { pending_packets_head = q; packets_queued = n; spin_lock = true })
      ≡ spins
unfolding run packet_enqueue packet_dequeue
run-locked q n (enqueue p) cs = refl
run-locked q n dequeue cs = refl

-- Any calls from a server with the lock free and the counter right, each of them run from taking
-- the lock to giving it back, fewer than 2^32 with the packets queued, end in one of three ways.
-- They return the packets of a first-in first-out list that allows them all and leave its rest
-- queued, the lock free and the counter right; or their last call is a dequeue after the others
-- have emptied that list, and it returns an unassigned packet behind the others and leaves the lock
-- taken; or such a dequeue has calls behind it, and the calls never return.
pub run_lem :
    (cs : List Call) (q : List Packet)
    → length q + length cs < 2 ^ 32
    → Ends cs q (run cs (ready q))
unfolding run
run_lem [] q h = delivers [] q idle
run_lem (enqueue p ∷ cs) q h =
    rw (packet_enqueue-ready q p (omega arith))
      (Ends-enqueue p cs q (run_lem cs (q ++ p ∷ []) (omega (arith, length-append q (p ∷ [])))))
run_lem (dequeue ∷ cs) (p ∷ q) h =
    rw (packet_dequeue-ready q p (omega arith)) (Ends-dequeue p cs q (run_lem cs q (omega arith)))
run_lem (dequeue ∷ []) [] h = rw packet_dequeue_empty (unassigned [] [] refl idle)
run_lem (dequeue ∷ c ∷ cs) [] h =
    rw (packet_dequeue_empty, run-locked [] 0 c cs) (hangs [] cs c [] refl idle)
