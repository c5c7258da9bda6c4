-- ===== src/Ports/Alloc.antt =====
-- `omx_alloc_buffers`: the headers form one list in the order in which they are made.
use omxtranscode.Base.{
  ℕ, ◌≡◌, ◌∙◌, ◌≢◌, refl, ap, true, false, some, List, [], ◌∷◌, ◌++◌, arith, ◌==◌, if◌then◌else◌,
  append_assoc, append-nil, Outcome, ok, exits, blocks, fault, and_then,
}
use omxtranscode.PacketQueue.{Ptr}
use omxtranscode.Omx.{
  BufferHeader, Component, IlCall, Part, Machine, Il, oerr, same_part, use_buffer,
  get_port_definition,
}
use omxtranscode.Omx.Wait.{same_part_refl}
use omxtranscode.Buffer.{write}
use omxtranscode.Buffer.Chain.{
  Chain, has, Distinct, last_pair, last_pair-append, Chain-write, write_self, write-other,
  set_next-ok, last-found, has-apart,
}
use omxtranscode.Buffer.Done.{link-append, Distinct-append}
use omxtranscode.Ports.{PortDefinition, store_end, alloc_loop, publish_buffers, omx_alloc_buffers}

-- OpenMAX accepts every call.
abbrev pub Accepts : Il → Type 0
Accepts il = (log : List IlCall) (call : IlCall) → il log call ≡ true

abbrev pub addresses : List (Ptr × BufferHeader) → List Ptr
addresses [] = []
addresses ((a, b) ∷ made) = a ∷ addresses made

-- Each new header is at an address of its own, and its `pAppPrivate` is the `NULL` that was given.
abbrev pub Fresh : List Ptr → List (Ptr × BufferHeader) → Type 0
Fresh bs [] = Unit {0}
Fresh bs ((a, b) ∷ made) =
    (has a bs ≡ false) × (a ≢ 0) × (b.p_app_private ≡ 0) × Fresh (bs ++ a ∷ []) made

pub oerr-ok :
    (il : Il) (call : IlCall) (m : Machine)
    → Accepts il
    → oerr il call m ≡ ok (tt, record m { log = call ∷ m.log })
unfolding oerr
oerr-ok il call m accepts = rw (accepts m.log call)

-- The list `bs` from `list`, on a machine with the components of `m`.
record Linked (m : Machine) (bs : List Ptr) (list : Ptr) (m' : Machine) : Type 0 where
  chain : Chain m'.heap list bs
  distinct : Distinct bs
  same : m'.component ≡ m.component
  same_pending : m'.pending ≡ m.pending

LinkedEnd : Machine → List Ptr → Outcome (Ptr × Machine) → Type 0
LinkedEnd m bs (ok r) = Linked m bs r.0 r.1
LinkedEnd m bs _ = ⊥

-- The components of another machine.
carry :
    (m m1 : Machine) (bs : List Ptr) (o : Outcome (Ptr × Machine))
    → m1.component ≡ m.component
    → m1.pending ≡ m.pending
    → LinkedEnd m1 bs o
    → LinkedEnd m bs o
unfolding LinkedEnd
carry m m1 bs (ok r) e e' l = record {
  chain = l.chain;
  distinct = l.distinct;
  same = l.same ∙ e;
  same_pending = l.same_pending ∙ e';
}
carry m m1 bs (exits n) e e' l = l
carry m m1 bs blocks e e' l = l
carry m m1 bs fault e e' l = l

-- The list `bs` and then `a`.
Appended : Machine → Ptr → List Ptr → Ptr → Outcome Machine → Type 0
Appended m list bs a (ok m') =
    Chain m'.heap list (bs ++ a ∷ []) × (m'.component ≡ m.component) × (m'.pending ≡ m.pending)
Appended m list bs a _ = ⊥

store_first : (a : Ptr) (m : Machine) → store_end 0 a m ≡ ok m
unfolding store_end
store_first a m = refl

-- One more header at the end of a list.
store_end-Appended :
    (m : Machine) (x : Ptr) (bs : List Ptr) (list a : Ptr) (b : BufferHeader)
    → Chain m.heap list (x ∷ bs)
    → Distinct (x ∷ bs)
    → has a (x ∷ bs) ≡ false
    → a ≢ 0
    → b.p_app_private ≡ 0
    → Appended m list
        (x ∷ bs)
        a
        (store_end (last_pair 0 (x ∷ bs)).1 a (record m { heap = write m.heap a (some b) }))
unfolding store_end Appended
store_end-Appended m x bs list a b c d out ne end =
    let y = (last_pair 0 (x ∷ bs)).1 in
    let h = write m.heap a (some b) in
    let c' = Chain-write m.heap list a (some b) (x ∷ bs) c out in
    let last = last-found h 0 list x bs c' in
    let g = write h y (some (record last.2.0 { p_app_private = a })) in
    let some_y : (y == 0) ≡ false = ground (arith, last.0) in
    rw (some_y, set_next-ok h y a last.2.0 last.0 last.2.1)
      (
        link-append h g 0 list x bs a last.2.0 b c' d (write_self h y _)
            (λ z i z_ne. write-other h y z _ z_ne) ne
            (write-other h y a _ (has-apart a y (x ∷ bs) out last.1) ∙ write_self m.heap a _) end,
        refl,
        refl,
      )

module _ (il : Il) (h : Ptr) (port : ℕ) (accepts : Accepts il) where
  continued :
      (made : List (Ptr × BufferHeader)) (m : Machine) (bs : List Ptr) (list a : Ptr)
      (o : Outcome Machine)
      → Appended m list bs a o
      → ((m' : Machine)
          → Chain m'.heap list (bs ++ a ∷ [])
          → LinkedEnd m' ((bs ++ a ∷ []) ++ addresses made) (alloc_loop il h port made list a m'))
      → LinkedEnd m
          (bs ++ a ∷ addresses made)
          (and_then o λ m'. alloc_loop il h port made list a m')
  unfolding LinkedEnd Appended
  continued made m bs list a (ok m') e ih =
      carry m m' _ (alloc_loop il h port made list a m') e.1 e.2
        (rw⁻¹ (append_assoc bs (a ∷ []) (addresses made)) (ih m' e.0))
  continued made m bs list a (exits n) e ih = e
  continued made m bs list a blocks e ih = e
  continued made m bs list a fault e ih = e

  alloc_loop-Linked :
      (made : List (Ptr × BufferHeader)) (m : Machine) (bs : List Ptr) (list : Ptr)
      → Chain m.heap list bs
      → Distinct bs
      → Fresh bs made
      → LinkedEnd m (bs ++ addresses made) (alloc_loop il h port made list (last_pair 0 bs).1 m)
  unfolding alloc_loop LinkedEnd
  alloc_loop-Linked [] m bs list c d f =
      rw (append-nil bs) (record { chain = c; distinct = d; same = refl; same_pending = refl })
  alloc_loop-Linked ((a, b) ∷ made) m [] list c d f =
      let m1 = record m { heap = write m.heap a (some b); log = use_buffer h port ∷ m.log } in
      rw (oerr-ok il (use_buffer h port) m accepts, store_first a m1)
        (carry m m1 _ (alloc_loop il h port made a a m1) refl refl (
          alloc_loop-Linked made m1 (a ∷ []) a (refl, f.1, (b, write_self m.heap a _, f.2))
            (refl, tt) f.3))
  alloc_loop-Linked ((a, b) ∷ made) m (x ∷ bs) list c d f =
      let m1 = record m { log = use_buffer h port ∷ m.log } in
      let some_y : ((last_pair 0 (x ∷ bs)).1 == 0) ≡ false =
        ground (arith, (last-found m.heap 0 list x bs c).0) in
      rw (oerr-ok il (use_buffer h port) m accepts, some_y)
        (carry m m1 _ _ refl refl (
          continued made m1 (x ∷ bs) list a _ (store_end-Appended m1 x bs list a b c d f.0 f.1 f.2)
            λ m' c'. rw (last_pair-append 0 (x ∷ bs) a) at (
              alloc_loop-Linked made m' ((x ∷ bs) ++ a ∷ []) list c'
                (Distinct-append (x ∷ bs) a d f.0) f.3)))

-- The component `p` holds the list: its address and the flag of the direction, with the rest of the
-- component and the other components as they were.
abbrev pub holding : PortDefinition → Ptr → Component → Component
holding portdef list c =
    if portdef.is_input
    then record c { buf_in_notempty = 1; in_buffers = list }
    else record c { buf_out_notempty = 1; out_buffers = list }

pub record Allocated (portdef : PortDefinition) (p : Part) (m : Machine) (bs : List Ptr)
    (m' : Machine) : Type 0 where
  pub list : Ptr
  pub chain : Chain m'.heap list bs
  pub distinct : Distinct bs
  pub holds : m'.component p ≡ holding portdef list (m.component p)
  pub others : (q : Part) → same_part p q ≡ false → m'.component q ≡ m.component q
  pub same_pending : m'.pending ≡ m.pending

abbrev pub Allocates :
    PortDefinition → Part → Machine → List Ptr → Outcome (Unit {0} × Machine) → Type 0
Allocates portdef p m bs (ok r) = Allocated portdef p m bs r.1
Allocates portdef p m bs _ = ⊥

module _ (portdef : PortDefinition) (p : Part) (list : Ptr) (m : Machine) where
  publish-heap : (publish_buffers portdef p list m).heap ≡ m.heap
  unfolding publish_buffers
  publish-heap = ground arith

  publish-at : (publish_buffers portdef p list m).component p ≡ holding portdef list (m.component p)
  unfolding publish_buffers
  publish-at = ground (arith, same_part_refl p)

  publish-pending : (publish_buffers portdef p list m).pending ≡ m.pending
  unfolding publish_buffers
  publish-pending = ground arith

  publish-other :
      (q : Part)
      → same_part p q ≡ false
      → (publish_buffers portdef p list m).component q ≡ m.component q
  unfolding publish_buffers
  publish-other q ne = ground (arith, ne)

publish-Allocated :
    (portdef : PortDefinition) (p : Part) (m m' : Machine) (bs : List Ptr) (list : Ptr)
    → Linked m bs list m'
    → Allocated portdef p m bs (publish_buffers portdef p list m')
publish-Allocated portdef p m m' bs list l = record {
  list = list;
  chain = rw (publish-heap portdef p list m') l.chain;
  distinct = l.distinct;
  holds = publish-at portdef p list m' ∙ ap (λ f. holding portdef list (f p)) l.same;
  others = λ q ne. publish-other portdef p list m' q ne ∙ ap (λ f. f q) l.same;
  same_pending = publish-pending portdef p list m' ∙ l.same_pending;
}

published :
    (portdef : PortDefinition) (p : Part) (m m1 : Machine) (bs : List Ptr)
    (o : Outcome (Ptr × Machine))
    → m1.component ≡ m.component
    → m1.pending ≡ m.pending
    → LinkedEnd m1 bs o
    → Allocates portdef p m bs (and_then o λ l. ok (tt, publish_buffers portdef p l.0 l.1))
unfolding LinkedEnd
published portdef p m m1 bs (ok r) e e' l = publish-Allocated portdef p m r.1 bs r.0 (record {
  chain = l.chain;
  distinct = l.distinct;
  same = l.same ∙ e;
  same_pending = l.same_pending ∙ e';
})
published portdef p m m1 bs (exits n) e e' l = l
published portdef p m m1 bs blocks e e' l = l
published portdef p m m1 bs fault e e' l = l

-- If OpenMAX accepts every call and makes each header at an address of its own, with the `NULL`
-- that it was given in `pAppPrivate`, then `omx_alloc_buffers` ends, and the component holds the
-- headers as one list, in the order in which they were made, with the flag of the port's direction
-- set. No other component changes, nor does anything else of this one.
pub alloc_buffers-Allocated :
    (il : Il) (portdef : PortDefinition) (made : List (Ptr × BufferHeader)) (p : Part) (port : ℕ)
    (m : Machine)
    → Accepts il
    → Fresh [] made
    → Allocates portdef p m (addresses made) (omx_alloc_buffers il portdef made p port m)
unfolding omx_alloc_buffers
alloc_buffers-Allocated il portdef made p port m accepts f =
    let m1 = record m { log = get_port_definition (m.component p).h port ∷ m.log } in
    rw (oerr-ok il (get_port_definition (m.component p).h port) m accepts) (
      published portdef p m m1 _ _ refl refl
        (alloc_loop-Linked il (m.component p).h port accepts made m1 [] 0 refl tt f))
