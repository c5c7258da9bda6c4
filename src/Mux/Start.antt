-- ===== src/Mux/Start.antt =====
-- Nothing of the video is written before both parameter sets are held.
use omxtranscode.Base.{Holds, ℕ, ◌≡◌, false, ◌&&◌, List, arith}
use omxtranscode.External.{BufferFlags}
use omxtranscode.ListApi.{ListApi}
use omxtranscode.PacketQueue.{Packet}
use omxtranscode.Mux.{
  MuxState, Av, Streams, CodecContext, Writer, is_some, buffer_packet, take_nal,
  store_parameter_set, extract_pps_ssp_packet, mux_packet, write_video_frame,
}

abbrev IsHeld : MuxState → Type 0
IsHeld s = s.flush_framebuf ≡ false

buffer_packet-IsHeld :
    (p : Packet) (block : List ℕ) (s : MuxState) → IsHeld s → Holds IsHeld (buffer_packet p block s)
unfolding buffer_packet
buffer_packet-IsHeld p block s h = ground (arith, h)

take_nal-IsHeld : (p : Packet) (s : MuxState) → IsHeld s → Holds (λ r. IsHeld r.1) (take_nal p s)
unfolding take_nal
take_nal-IsHeld p s h = grind (arith, buffer_packet-IsHeld)

store-IsHeld :
    (t : ℕ) (bytes : List ℕ) (size : ℕ) (s : MuxState)
    → IsHeld s
    → Holds (λ r. IsHeld r.1) (store_parameter_set t bytes size s)
unfolding store_parameter_set
store-IsHeld t bytes size s h = ground (arith, h)

extract-IsHeld :
    (bytes : List ℕ) (size : ℕ) (s : MuxState)
    → IsHeld s
    → Holds (λ r. IsHeld r.1) (extract_pps_ssp_packet bytes size s)
unfolding extract_pps_ssp_packet
extract-IsHeld bytes size s h = grind (arith, store-IsHeld)

module _ (av : Av) (f : BufferFlags) (st : Streams) where
  mux_packet-IsHeld :
      (p : Packet) (s : MuxState) (c : List CodecContext)
      → IsHeld s
      → Holds (λ r. IsHeld r.1) (mux_packet av f st p s c)
  unfolding mux_packet
  mux_packet-IsHeld p s c h = grind (arith, buffer_packet-IsHeld, take_nal-IsHeld, extract-IsHeld)

  module _ (api : ListApi Packet) where
    open api use {Head}

    -- Unless both parameter sets are held before the call, a call of `write_video_frame` that ends
    -- writes no frame, whatever packet comes.
    pub no_frame_before_parameters :
        (w : Writer Head)
        → (is_some w.mux.pps && is_some w.mux.sps) ≡ false
        → Holds (λ w'. w'.written ≡ w.written) (write_video_frame api av f st w)
    unfolding write_video_frame
    no_frame_before_parameters w missing = grind (arith, mux_packet-IsHeld)
