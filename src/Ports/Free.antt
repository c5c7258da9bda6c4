-- ===== src/Ports/Free.antt =====
-- `omx_free_buffers`: each header of the list is freed once, in order, and not read afterwards.
use omxtranscode.Base.{
  ℕ, zero, suc, ◌<◌, ◌≡◌, ◌∙◌, refl, ap, Bool, true, false, none, List, [], ◌∷◌, arith, ◌==◌,
  if◌then◌else◌, length, Outcome, ok, exits, blocks, fault,
}
use omxtranscode.PacketQueue.{Ptr}
use omxtranscode.Omx.{IlCall, Part, Machine, Il, free_buffer, get_port_definition}
use omxtranscode.Buffer.{write}
use omxtranscode.Buffer.Chain.{Chain, has, Distinct, Chain-write, write_self, write-other, load-ok}
use omxtranscode.Ports.{PortDefinition, free_loop, omx_free_buffers}
use omxtranscode.Ports.Alloc.{Accepts, oerr-ok}

-- The log with a call for each header, last first.
abbrev pub freeing : Ptr → ℕ → List Ptr → List IlCall → List IlCall
freeing h port [] log = log
freeing h port (a ∷ bs) log = freeing h port bs (free_buffer h port a ∷ log)

-- `m'` is `m` with the headers `bs` gone and the calls logged.
pub record Freed (h : Ptr) (port : ℕ) (m : Machine) (bs : List Ptr) (m' : Machine) : Type 0 where
  pub calls : m'.log ≡ freeing h port bs m.log
  pub gone : (x : Ptr) → has x bs ≡ true → m'.heap x ≡ none
  pub kept : (x : Ptr) → has x bs ≡ false → m'.heap x ≡ m.heap x
  pub components : m'.component ≡ m.component

abbrev pub Frees : Ptr → ℕ → Machine → List Ptr → Outcome Machine → Type 0
Frees h port m bs (ok m') = Freed h port m bs m'
Frees h port m bs _ = ⊥

module _ (il : Il) (h : Ptr) (port : ℕ) (accepts : Accepts il) where
  gone_first :
      (m : Machine) (a : Ptr) (bs : List Ptr) (m' : Machine)
      → has a bs ≡ false
      → Freed h port
          (record m { log = free_buffer h port a ∷ m.log; heap = write m.heap a none })
          bs
          m'
      → (x : Ptr) → has x (a ∷ bs) ≡ true
      → (later : Bool) → has x bs ≡ later
      → m'.heap x ≡ none
  gone_first m a bs m' out f x i true e = f.gone x e
  gone_first m a bs m' out f x i false e =
      let same : x ≡ a = ground arith in
      f.kept x e ∙ ap (write m.heap a none) same ∙ write_self m.heap a none

  freed_more :
      (m : Machine) (a : Ptr) (bs : List Ptr) (o : Outcome Machine)
      → has a bs ≡ false
      → Frees h port
          (record m { log = free_buffer h port a ∷ m.log; heap = write m.heap a none })
          bs
          o
      → Frees h port m (a ∷ bs) o
  freed_more m a bs (ok m') out f = record {
    calls = f.calls;
    gone = λ x i. gone_first m a bs m' out f x i (has x bs) refl;
    kept = λ x i. f.kept x (ground arith) ∙ write-other m.heap a x none (ground arith);
    components = f.components;
  }
  freed_more m a bs (exits n) out f = f
  freed_more m a bs blocks out f = f
  freed_more m a bs fault out f = f

  free_loop-Frees :
      (k : ℕ) (m : Machine) (p : Ptr) (bs : List Ptr)
      → Chain m.heap p bs
      → Distinct bs
      → length bs < k
      → Frees h port m bs (free_loop k il h port p m)
  unfolding free_loop
  free_loop-Frees zero m p bs c d fuel = elim fuel [ ]
  free_loop-Frees (suc k) m p [] c d fuel =
      let null : (p == 0) ≡ true = ground arith in
      rw null (record { calls = refl; gone = λ x i. cc; kept = λ x i. refl; components = refl })
  free_loop-Frees (suc k) m p (a ∷ bs) c d fuel =
      let some_p : (a == 0) ≡ false = ground (arith, c.1) in
      rw
        (c.0, some_p, load-ok m.heap a c.2.0 c.1 c.2.1, oerr-ok il (free_buffer h port a) m accepts)
        (freed_more m a bs _ d.0 (
          free_loop-Frees k _ c.2.0.p_app_private bs
            (Chain-write m.heap c.2.0.p_app_private a none bs c.2.2 d.0) d.1 (omega arith)))

-- The list that `omx_free_buffers` walks.
abbrev pub list_of : PortDefinition → Part → Machine → Ptr
list_of portdef p m =
    if portdef.is_input then (m.component p).in_buffers else (m.component p).out_buffers

-- If OpenMAX accepts every call, and the list of the port's direction is `bs`, distinct headers
-- for which there is fuel, then `omx_free_buffers` ends; it calls `OMX_FreeBuffer` once for each
-- header of the list, in order, the headers are gone, the other headers are as they were, and no
-- component changes: this one keeps its pointer to the list.
pub free_buffers-Frees :
    (k : ℕ) (il : Il) (portdef : PortDefinition) (p : Part) (port : ℕ) (m : Machine) (bs : List Ptr)
    → Accepts il
    → Chain m.heap (list_of portdef p m) bs
    → Distinct bs
    → length bs < k
    → let h = (m.component p).h in
      Frees h port
        (record m { log = get_port_definition h port ∷ m.log })
        bs
        (omx_free_buffers k il portdef p port m)
unfolding omx_free_buffers
free_buffers-Frees k il portdef p port m bs accepts c d fuel =
    let h = (m.component p).h in
    rw (oerr-ok il (get_port_definition h port) m accepts) (
      free_loop-Frees il h port accepts k (record m { log = get_port_definition h port ∷ m.log })
        (list_of portdef p m) bs c d fuel)
