-- ===== src/PacketQueue/Plain.antt =====
-- An instance of the list interface: the head is the list of the entries.
use omxtranscode.Base.{ℕ, ◌+◌, ◌≡◌, refl, Bool, true, false, List, [], ◌∷◌, ◌++◌, pos, length}
use omxtranscode.ListApi.{ListApi}
use omxtranscode.PacketQueue.{Packet, PacketQueue}

-- A packet whose struct is at 2 n + 2 and whose one byte, n, is at 2 n + 1.
abbrev pub packet : ℕ → Packet
packet n = record {
  block = n + n + 2;
  payload = n + n + 1;
  bytes = n ∷ [];
  data_length = 1;
  pts = pos n;
  dts = pos n;
  duration = pos 0;
  flags = 0;
}

abbrev pub is_nil : List Packet → Bool
is_nil [] = true
is_nil (p ∷ ps) = false

abbrev pub first : List Packet → Packet
first [] = packet 0
first (p ∷ ps) = p

abbrev pub rest : List Packet → List Packet
rest [] = []
rest (p ∷ ps) = ps

pub is_nil-nil : (l : List Packet) → l ≡ [] → is_nil l ≡ true
is_nil-nil l e = rw e

pub is_nil-cons : (l : List Packet) (p : Packet) (ps : List Packet) → l ≡ p ∷ ps → is_nil l ≡ false
is_nil-cons l p ps e = rw e

pub first-cons : (l : List Packet) (p : Packet) (ps : List Packet) → l ≡ p ∷ ps → first l ≡ p
first-cons l p ps e = rw e

pub rest-cons : (l : List Packet) (p : Packet) (ps : List Packet) → l ≡ p ∷ ps → rest l ≡ ps
rest-cons l p ps e = rw e

abbrev pub plain : ListApi Packet
plain = record {
  Head = List Packet;
  entries = λ l. l;
  init_list_head = [];
  list_empty = is_nil;
  next_entry = first;
  list_add_tail = λ p l. l ++ p ∷ [];
  list_del = λ p l. rest l;
  list_for_each_safe = λ l. l;
  entries-init = refl;
  list_empty-nil = is_nil-nil;
  list_empty-cons = is_nil-cons;
  next_entry-cons = first-cons;
  entries-add_tail = λ p l. refl;
  entries-del_first = rest-cons;
  for_each-entries = λ l. refl;
}

unfoldable pub queue_of : List Packet → PacketQueue (List Packet)
queue_of ps = record {
  queue = ps;
  queue_count = pos (length ps);
  first_packet = pos 0;
  queue_finished = 0;
}
