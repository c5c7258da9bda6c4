-- ===== src/PacketQueue/Tests.antt =====
-- The packet queue over plain lists: runs, and the theorems at concrete queues.
use omxtranscode.Base.{ℕ, ◌≡◌, refl, true, false, none, some, List, [], ◌∷◌, ◌++◌}
use omxtranscode.PacketQueue.{
  Packet, PacketQueue, packet_queue_add_item, packet_queue_get_next_item,
  packet_queue_get_next_item_asynch, packet_queue_flush, packet_queue_free_packet, unlink_first,
  contents, IsCounted,
}
use omxtranscode.PacketQueue.Wait.{get_next_item-first, get_next_item-waits}
use omxtranscode.PacketQueue.Memory.{flush-owned}
use omxtranscode.PacketQueue.Refines.{
  Call, add, take, flush, History, run, call, run-fifo, run-IsCounted, view,
}
use omxtranscode.PacketQueue.Threads.{Shared, produce, produces, sleeps, here, next, no_lost_wakeup}
use omxtranscode.PacketQueue.Plain.{plain, packet, queue_of}

two : PacketQueue (List Packet)
unfolding queue_of
two = queue_of (packet 1 ∷ packet 2 ∷ [])

plain-run :
    (run plain
      (record { queue = queue_of []; taken = [] })
      (add (some (packet 5)) ∷ take ∷ take ∷ [])).taken
    ≡ none ∷ some (packet 5) ∷ []
unfolding run call queue_of packet_queue_get_next_item_asynch packet_queue_add_item unlink_first
plain-run = refl

null_ignored : packet_queue_add_item plain two none ≡ (two, false)
unfolding packet_queue_add_item
null_ignored = refl

signal_if_empty : (packet_queue_add_item plain (queue_of []) (some (packet 1))).1 ≡ true
unfolding packet_queue_add_item queue_of
signal_if_empty = refl

free_struct_only : packet_queue_free_packet (some (packet 3)) 0 ≡ 8 ∷ []
unfolding packet_queue_free_packet
free_struct_only = refl

-- Another thread adds a packet in the second wait.
abbrev put : ℕ → PacketQueue (List Packet) → PacketQueue (List Packet)
put n q = (packet_queue_add_item plain q (some (packet n))).0

abbrev idle : PacketQueue (List Packet) → PacketQueue (List Packet)
idle q = q

get_next_item-first_example :
    (packet_queue_get_next_item plain (idle ∷ put 7 ∷ put 8 ∷ []) (queue_of [])
      ≡ some (packet 7, (unlink_first plain (put 7 (queue_of []))).1))
    × (contents plain (unlink_first plain (put 7 (queue_of []))).1 ≡ [])
unfolding queue_of packet_queue_add_item
get_next_item-first_example =
    get_next_item-first plain (idle ∷ put 7 ∷ []) (put 8 ∷ []) (queue_of []) (packet 7) []
      (refl, (refl, tt)) refl

get_next_item-waits_example : packet_queue_get_next_item plain (idle ∷ []) (queue_of []) ≡ none
unfolding queue_of
get_next_item-waits_example = get_next_item-waits plain (idle ∷ []) (queue_of []) (refl, tt) refl

flush-owned_example :
    (contents plain (packet_queue_flush plain two).0 ≡ [])
    × IsCounted plain (packet_queue_flush plain two).0
    × ((packet_queue_flush plain two).1 ≡ 3 ∷ 4 ∷ 5 ∷ 6 ∷ [])
unfolding two
flush-owned_example = flush-owned plain two

abbrev calls : List Call
calls = add (some (packet 5)) ∷ take ∷ add none ∷ add (some (packet 6)) ∷ flush ∷ take ∷ []

abbrev begun : History plain
begun = record { queue = two; taken = [] }

run-fifo_example :
    view plain (run plain begun calls) ≡ record { items = []; taken = none ∷ some (packet 1) ∷ [] }
unfolding two
run-fifo_example = run-fifo plain begun calls

run-IsCounted_example : IsCounted plain (run plain begun calls).queue
unfolding two
run-IsCounted_example = run-IsCounted plain begun calls refl

-- The consumer falls asleep, and a packet comes.
abbrev at_start : Shared plain
at_start = record { queue = queue_of []; asleep = false; sent = []; got = [] }

abbrev asleep : Shared plain
asleep = record at_start { asleep = true }

no_lost_wakeup_example :
    ((produce plain (packet 1) asleep).asleep ≡ true
      → contents plain (produce plain (packet 1) asleep).queue ≡ [])
    × ((produce plain (packet 1) asleep).sent
        ≡ (produce plain (packet 1) asleep).got
          ++ contents plain (produce plain (packet 1) asleep).queue)
unfolding queue_of
no_lost_wakeup_example =
    no_lost_wakeup plain at_start (produce plain (packet 1) asleep) refl refl
      (next (next here (sleeps at_start refl refl)) (produces asleep (packet 1)))
