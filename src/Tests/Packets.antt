-- ===== src/Tests/Packets.antt =====
-- Two packets through the queue.
use msp430_emulator.Base.{◌≡◌, [], ◌∷◌, some, arith, refl}
use msp430_emulator.PacketQueue.{
  Packet, init_packet_queue, returned, spins, packet_enqueue, packet_dequeue, packet_queue_empty,
  unlink_first, link_last,
}
use msp430_emulator.PacketQueue.Race.{Pc, Steps}
use msp430_emulator.PacketQueue.Race.Lost.{at, holding, packet_lost}
use msp430_emulator.PacketQueue.Fifo.{
  enqueue, dequeue, put, take, idle, run, ready, run-Fifo, Ends, run_lem,
}

abbrev hello : Packet
hello = record { message = 104 ∷ []; length = 1; opcode = 1 }

abbrev world : Packet
world = record { message = 119 ∷ []; length = 1; opcode = 2 }

run-Fifo_example :
    run (enqueue hello ∷ enqueue world ∷ dequeue ∷ []) init_packet_queue
    ≡ returned (some hello ∷ []) (ready (world ∷ []))
run-Fifo_example =
    run-Fifo (enqueue hello ∷ enqueue world ∷ dequeue ∷ []) [] (hello ∷ []) (world ∷ [])
      (omega arith) (put (put (take idle)))

-- The second dequeue finds the queue empty.
dequeued_twice : run (enqueue hello ∷ dequeue ∷ dequeue ∷ enqueue world ∷ []) (ready []) ≡ spins
unfolding run packet_enqueue packet_dequeue packet_queue_empty unlink_first link_last
dequeued_twice = refl

run_lem_example :
    Ends
      (enqueue hello ∷ dequeue ∷ dequeue ∷ enqueue world ∷ [])
      []
      (run (enqueue hello ∷ dequeue ∷ dequeue ∷ enqueue world ∷ []) (ready []))
run_lem_example = run_lem (enqueue hello ∷ dequeue ∷ dequeue ∷ enqueue world ∷ []) [] (omega arith)

packet_lost_example :
    Steps
      (at init_packet_queue (Pc.testing hello) (Pc.testing world))
      (at (holding (world ∷ []) 2) Pc.ended Pc.ended)
packet_lost_example = packet_lost [] 0 hello world
