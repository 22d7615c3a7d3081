-- ===== src/PacketQueue/Race/Lost.antt =====
-- A schedule in which a packet is lost, and a call that nobody interrupts.
use msp430_emulator.Base.{
  ℕ, suc, append-nil, ◌∙◌, ◌+◌, ◌≡◌, false, List, [], ◌∷◌, ◌++◌, take, length, u32, arith, refl,
  subst, sym,
}
use msp430_emulator.PacketQueue.{Packet, Server, returned, packet_enqueue, link_last}
use msp430_emulator.PacketQueue.Fifo.{link_last-append}
use msp430_emulator.PacketQueue.Race.{
  Pc, System, Steps, start, then, by_processor, by_web, find_last, link_behind, see_free, lock,
  walk, link, count,
}

take-append : (q r : List Packet) → take (length q) (q ++ r) ≡ q
take-append [] r = refl
take-append (h ∷ q) r = rw (take-append q r) refl

link_behind-append :
    (q r : List Packet) (p : Packet) → link_behind (find_last q) p (q ++ r) ≡ q ++ p ∷ []
unfolding link_behind find_last
link_behind-append [] r p = refl
link_behind-append (h ∷ q) r p =
    let whole : length q + 1 ≡ suc (length q) = omega arith in rw (whole, take-append q r) refl

linked : (q : List Packet) (p : Packet) → link_behind (find_last q) p q ≡ q ++ p ∷ []
linked q p =
    subst (λ r. link_behind (find_last q) p r ≡ q ++ p ∷ []) (append-nil q)
      (link_behind-append q [] p)

abbrev pub at : Server → Pc → Pc → System
at s processor web = record { server = s; processor = processor; web = web }

abbrev pub holding : List Packet → ℕ → Server
holding q n = record { pending_packets_head = q; packets_queued = n; spin_lock = false }

-- Without steps of the other thread, the steps of a call come to `packet_enqueue`.
alone :
    (q : List Packet) (n : ℕ) (p : Packet) (web : Pc) (t : Server)
    → packet_enqueue p (holding q n) ≡ returned tt t
    → Steps (at (holding q n) (Pc.testing p) web) (at t Pc.ended web)
unfolding packet_enqueue
alone q n p web t run =
    let same : link_behind (find_last q) p q ≡ link_last q p =
      linked q p ∙ sym (link_last-append q p) in
    let server : holding (link_last q p) (u32 (n + 1)) ≡ t = cc in
    subst (λ s. Steps (at (holding q n) (Pc.testing p) web) (at s Pc.ended web)) server
      (subst
        (λ head.
          Steps (at (holding q n) (Pc.testing p) web)
            (at (holding head (u32 (n + 1))) Pc.ended web))
        same
        (then (by_processor (see_free refl)) (
          then (by_processor lock) (
            then (by_processor walk)
              (then (by_processor link) (then (by_processor count) start))))))

module _ (q : List Packet) (n : ℕ) (p p' : Packet) where
  both_linked : link_behind (find_last q) p' (link_behind (find_last q) p q) ≡ q ++ p' ∷ []
  both_linked = rw (linked q p) (link_behind-append q (p ∷ []) p')

  -- From a server with the lock free and any queue, there is a schedule of two calls of
  -- packet_enqueue by two threads in which both calls end, the lock is free and the counter has
  -- grown by two, but of the two packets only one is queued.
  pub packet_lost :
      Steps
        (at (holding q n) (Pc.testing p) (Pc.testing p'))
        (at (holding (q ++ p' ∷ []) (u32 (u32 (n + 1) + 1))) Pc.ended Pc.ended)
  packet_lost =
      subst
        (λ head.
          Steps (at (holding q n) (Pc.testing p) (Pc.testing p'))
            (at (holding head (u32 (u32 (n + 1) + 1))) Pc.ended Pc.ended))
        both_linked
        (then (by_processor (see_free refl)) (
          then (by_web (see_free refl)) (
            then (by_processor lock) (
              then (by_web lock) (
                then (by_processor walk) (
                  then (by_web walk) (
                    then (by_processor link) (
                      then (by_web link)
                        (then (by_processor count) (then (by_web count) start))))))))))
