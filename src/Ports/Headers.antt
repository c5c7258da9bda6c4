-- ===== src/Ports/Headers.antt =====
-- What the headers are that `omx_alloc_buffers` links.
use omxtranscode.Base.{
  ℕ, ◌≡◌, ◌∙◌, refl, sym, Option, none, some, List, [], ◌∷◌, arith, ◌==◌, ok, fault, and_then,
  Holds, Holds-next, Bool-cases, inl, inr, true, false,
}
use omxtranscode.PacketQueue.{Ptr}
use omxtranscode.Omx.{
  BufferHeader, Heap, Part, Machine, Il, IlCall, use_buffer, get_port_definition, oerr,
}
use omxtranscode.Buffer.{write, load, set_next}
use omxtranscode.Ports.{PortDefinition, store_end, alloc_loop, publish_buffers, omx_alloc_buffers}

-- `P` holds of each header in memory, by its address.
abbrev pub Everywhere : (Ptr → BufferHeader → Type 0) → Heap → Type 0
Everywhere P h = (a : Ptr) (b : BufferHeader) → h a ≡ some b → P a b

abbrev pub ForgetsLinks : (Ptr → BufferHeader → Type 0) → Type 0
ForgetsLinks P =
    (a : Ptr) (b : BufferHeader) (next : Ptr) → P a b → P a (record b { p_app_private = next })

abbrev pub AllMade : (Ptr → BufferHeader → Type 0) → List (Ptr × BufferHeader) → Type 0
AllMade P [] = Unit {0}
AllMade P ((a, b) ∷ made) = P a b × AllMade P made

module _ (P : Ptr → BufferHeader → Type 0) (forgets : ForgetsLinks P) where
  written :
      (h : Heap) (a : Ptr) (b : BufferHeader) (x : Ptr)
      → (x == a) ≡ true
      → write h a (some b) x ≡ some b
  unfolding write
  written h a b x e = ground (arith, e)

  kept :
      (h : Heap) (a : Ptr) (b : BufferHeader) (x : Ptr)
      → (x == a) ≡ false
      → write h a (some b) x ≡ h x
  unfolding write
  kept h a b x e = ground (arith, e)

  some-eq : (b c : BufferHeader) → some b ≡ some c → b ≡ c
  some-eq b c e = cc

  at_address : (a x : Ptr) (b c : BufferHeader) → (x == a) ≡ true → b ≡ c → P a b → P x c
  at_address a x b c e e' h = let same : a ≡ x = ground (arith, e) in rw (sym same, sym e') h

  write-Everywhere :
      (h : Heap) (a : Ptr) (b : BufferHeader)
      → Everywhere P h
      → P a b
      → Everywhere P (write h a (some b))
  write-Everywhere h a b all good x c e = elim (Bool-cases (x == a)) [
    | inl same ↦ at_address a x b c same (some-eq b c (sym (written h a b x same) ∙ e)) good
    | inr other ↦ all x c (sym (kept h a b x other) ∙ e)
  ]

  linked :
      (p q : Ptr) (h : Heap) (o : Option BufferHeader)
      → Everywhere P h
      → h p ≡ o
      → Holds (Everywhere P) (
          and_then
            (elim o [ none ↦ fault | some b ↦ ok b ])
            λ b. ok (write h p (some (record b { p_app_private = q }))))
  linked p q h none all e = tt
  linked p q h (some b) all e =
      write-Everywhere h p (record b { p_app_private = q }) all (forgets p b q (all p b e))

  set_next-Everywhere :
      (p q : Ptr) (h : Heap) → Everywhere P h → Holds (Everywhere P) (set_next p q h)
  unfolding set_next load
  set_next-Everywhere p q h all = elim (Bool-cases (p == 0)) [
    | inl e ↦ rw (set_next, load, e) tt
    | inr e ↦ rw (set_next, load, e) (linked p q h (h p) all refl)
  ]

  abbrev Good : Machine → Type 0
  Good m = Everywhere P m.heap

  store_end-Good : (prev buffer : Ptr) (m : Machine) → Good m → Holds Good (store_end prev buffer m)
  unfolding store_end
  store_end-Good prev buffer m all = elim (Bool-cases (prev == 0)) [
    | inl e ↦ rw e all
    | inr e ↦ rw e (
        Holds-next (Everywhere P) Good (set_next prev buffer m.heap) _
          (set_next-Everywhere prev buffer m.heap all) λ h g. g)
  ]

  oerr-Good :
      (il : Il) (call : IlCall) (m : Machine)
      → Good m
      → Holds (λ (r : Unit {0} × Machine). Good r.1) (oerr il call m)
  unfolding oerr
  oerr-Good il call m all = ground arith

  alloc_loop-Good :
      (il : Il) (h : Ptr) (port : ℕ) (made : List (Ptr × BufferHeader)) (list prev : Ptr)
      (m : Machine)
      → AllMade P made
      → Good m
      → Holds (λ (r : Ptr × Machine). Good r.1) (alloc_loop il h port made list prev m)
  unfolding alloc_loop
  alloc_loop-Good il h port [] list prev m good all = all
  alloc_loop-Good il h port ((a, b) ∷ made) list prev m good all =
      Holds-next (λ (r : Unit {0} × Machine). Good r.1) (λ (r : Ptr × Machine). Good r.1) _ _
        (oerr-Good il (use_buffer h port) m all)
        λ r1 h1.
          Holds-next Good (λ (r : Ptr × Machine). Good r.1) _ _
            (store_end-Good prev a (record r1.1 { heap = write r1.1.heap a (some b) })
              (write-Everywhere r1.1.heap a b h1 good.0))
            λ m' h2. alloc_loop-Good il h port made _ a m' good.1 h2

  publish-Good :
      (portdef : PortDefinition) (p : Part) (list : Ptr) (m : Machine)
      → (publish_buffers portdef p list m).heap ≡ m.heap
  unfolding publish_buffers
  publish-Good portdef p list m = ground arith

  -- What holds of every header in memory and of those that OpenMAX makes, whatever their links,
  -- holds of every header behind `omx_alloc_buffers`.
  pub alloc_buffers-Everywhere :
      (il : Il) (portdef : PortDefinition) (made : List (Ptr × BufferHeader)) (p : Part) (port : ℕ)
      (m : Machine)
      → AllMade P made
      → Everywhere P m.heap
      → Holds
          (λ (r : Unit {0} × Machine). Everywhere P r.1.heap)
          (omx_alloc_buffers il portdef made p port m)
  unfolding omx_alloc_buffers
  alloc_buffers-Everywhere il portdef made p port m good all =
      Holds-next (λ (r : Unit {0} × Machine). Good r.1) (λ (r : Unit {0} × Machine). Good r.1) _ _
        (oerr-Good il (get_port_definition (m.component p).h port) m all)
        λ r1 h1.
          Holds-next (λ (r : Ptr × Machine). Good r.1) (λ (r : Unit {0} × Machine). Good r.1) _ _
            (alloc_loop-Good il (m.component p).h port made 0 0 r1.1 good h1)
            λ l h2. rw (publish-Good portdef p l.0 l.1) h2
