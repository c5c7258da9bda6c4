-- ===== src/Ports/Tests.antt =====
-- Two headers made and freed, and the theorems there.
use omxtranscode.Base.{refl, true, List, [], ◌∷◌, arith}
use omxtranscode.PacketQueue.{Ptr}
use omxtranscode.Omx.{BufferHeader, video_decode, get_port_definition}
use omxtranscode.Omx.Sample.{header, machine, willing}
use omxtranscode.Ports.{PortDefinition, omx_alloc_buffers, omx_free_buffers}
use omxtranscode.Ports.Alloc.{Allocates, alloc_buffers-Allocated}
use omxtranscode.Ports.Free.{Frees, free_buffers-Frees}

abbrev input_port : PortDefinition
input_port = record { is_input = true }

abbrev made : List (Ptr × BufferHeader)
made = (60, header 0 0) ∷ (70, header 0 0) ∷ []

alloc_buffers-Allocated_example :
    Allocates input_port video_decode
      (machine [])
      (60 ∷ 70 ∷ [])
      (omx_alloc_buffers willing input_port made video_decode 130 (machine []))
alloc_buffers-Allocated_example =
    alloc_buffers-Allocated willing input_port made video_decode 130 (machine []) (λ log call. refl)
      (refl, omega arith, refl, (refl, omega arith, refl, tt))

free_buffers-Frees_example :
    Frees 1 130
      (record (machine []) { log = get_port_definition 1 130 ∷ [] })
      (10 ∷ 20 ∷ [])
      (omx_free_buffers 3 willing input_port video_decode 130 (machine []))
free_buffers-Frees_example =
    free_buffers-Frees 3 willing input_port video_decode 130 (machine []) (10 ∷ 20 ∷ [])
      (λ log call. refl)
      (refl, omega arith, (header 3 20, refl, (refl, omega arith, (header 0 0, refl, refl))))
      (refl, (refl, tt)) (omega arith)
