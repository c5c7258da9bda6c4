-- ===== src/Ports.antt =====
-- omx.c: allocating and freeing the buffers of a port. OpenMAX is a parameter: `portdef` is its
-- answer to `OMX_GetParameter`, and `made` the headers that `OMX_UseBuffer` makes, one for each of
-- the `nBufferCountActual` calls.
pub mod Alloc
pub mod Headers
pub mod Free
mod Tests
use omxtranscode.Base.{
  ℕ, zero, suc, Bool, true, false, none, some, List, [], ◌∷◌, ◌==◌, if◌then◌else◌, Outcome, ok,
  blocks, and_then, Cmd,
}
use omxtranscode.PacketQueue.{Ptr}
use omxtranscode.Omx.{
  BufferHeader, Component, Part, buf_in_notempty_cv, buf_out_notempty_cv, get_port_definition,
  use_buffer, free_buffer, Machine, Il, oerr,
}
use omxtranscode.Buffer.{write, load, set_next, with_component}

-- What is read of `OMX_PARAM_PORTDEFINITIONTYPE`: `eDir == OMX_DirInput`.
pub record PortDefinition : Type 0 where
  pub is_input : Bool

-- `*end = buffer`, where `end` points to `list` or into the header `prev`.
unfoldable pub store_end : (prev buffer : Ptr) → Machine → Outcome Machine
store_end prev buffer m =
    if prev == 0
    then ok m
    else and_then (set_next prev buffer m.heap) (λ h. ok (record m { heap = h }))

-- The `for` loop, on `list` and the header that `end` points into; 0 stands for `list` itself.
unfoldable pub alloc_loop :
    Il → Ptr → (port : ℕ) → List (Ptr × BufferHeader) → (list prev : Ptr) → Cmd Machine Ptr
alloc_loop il h port [] list prev m = ok (list, m)
alloc_loop il h port ((buffer, header) ∷ made) list prev m =
    and_then (oerr il (use_buffer h port) m) λ r.
      and_then (store_end prev buffer (record r.1 { heap = write r.1.heap buffer (some header) }))
        λ m'. alloc_loop il h port made (if prev == 0 then buffer else list) buffer m'

-- The list becomes the component's.
unfoldable pub publish_buffers : PortDefinition → Part → Ptr → Machine → Machine
publish_buffers portdef p list m =
    if portdef.is_input
    then record (with_component p (λ c. record c { buf_in_notempty = 1; in_buffers = list }) m) {
      signals = (p, buf_in_notempty_cv) ∷ m.signals;
    }
    else record (with_component p (λ c. record c { buf_out_notempty = 1; out_buffers = list }) m) {
      signals = (p, buf_out_notempty_cv) ∷ m.signals;
    }

unfoldable pub omx_alloc_buffers :
    Il → PortDefinition → List (Ptr × BufferHeader) → Part → (port : ℕ) → Cmd Machine (Unit {0})
omx_alloc_buffers il portdef made p port m =
    let h = (m.component p).h in
    and_then (oerr il (get_port_definition h port) m) λ r.
      and_then (alloc_loop il h port made 0 0 r.1) λ l. ok (tt, publish_buffers portdef p l.0 l.1)

-- `while (buf)`; OpenMAX frees the header with the buffer.
unfoldable pub free_loop : ℕ → Il → Ptr → (port : ℕ) → Ptr → Machine → Outcome Machine
free_loop zero il h port buf m = blocks
free_loop (suc k) il h port buf m =
    if buf == 0
    then ok m
    else and_then (load buf m.heap) λ b.
      and_then (oerr il (free_buffer h port buf) m)
        λ r. free_loop k il h port b.p_app_private (record r.1 { heap = write r.1.heap buf none })

-- The component keeps its pointer to the list.
unfoldable pub omx_free_buffers :
    ℕ → Il → PortDefinition → Part → (port : ℕ) → Machine → Outcome Machine
omx_free_buffers k il portdef p port m =
    let c = m.component p in
    and_then (oerr il (get_port_definition c.h port) m)
      λ r. free_loop k il c.h port (if portdef.is_input then c.in_buffers else c.out_buffers) r.1
