-- ===== src/Pipeline.antt =====
-- omx.c: initialising the components and setting up the pipeline up to its decoder. What OpenMAX
-- answers is a parameter.
pub mod Disable
pub mod Init
pub mod Tables
pub mod Setup
mod Tests
use omxtranscode.Base.{
  ℕ, zero, suc, ◌+◌, Bool, true, false, Option, none, some, List, [], ◌∷◌, if◌then◌else◌, Outcome,
  ok, and_then, Cmd, ◌>>=◌, ◌>>◌, get, modify, pure,
}
use omxtranscode.External.{BufferFlags, Commands}
use omxtranscode.ListApi.{ListApi}
use omxtranscode.PacketQueue.{Ptr, Packet, PacketQueue, packet_queue_init}
use omxtranscode.Omx.{
  BufferHeader, Component, FillBufferDone, omx_encoder_fill_buffer_done,
  omx_generic_fill_buffer_done, Part, video_decode, image_fx, video_encode, get_handle,
  get_port_param, set_parameter, set_config, Machine, set_component, Il, oerr,
}
use omxtranscode.Omx.Command.{
  no_cmd, omx_send_command_and_wait0, omx_send_command_and_wait1, omx_send_command_and_wait,
}
use omxtranscode.Ports.{PortDefinition, omx_alloc_buffers}
use Prim.Native.String.{String}

-- The answers of OpenMAX: the handle of a component, and in the order of `types[]` the first port
-- number and the number of ports of each domain, if the call succeeds.
pub record Answers : Type 0 where
  pub handle : Part → Ptr
  pub ports : Part → List (Option (ℕ × ℕ))

-- The names that the pipeline gives its components.
abbrev pub component_name : Part → String
component_name video_decode = "OMX.broadcom.video_decode"
component_name image_fx = "OMX.broadcom.image_fx"
component_name video_encode = "OMX.broadcom.video_encode"

-- `strcmp(compname, "OMX.broadcom.video_encode") == 0`, for the names in use.
abbrev pub callback_of : Part → FillBufferDone
callback_of video_encode = omx_encoder_fill_buffer_done
callback_of _ = omx_generic_fill_buffer_done

-- The component before it has a handle.
abbrev pub blank_component : Part → Component
blank_component p = record {
  h = 0;
  fill_buffer_done = callback_of p;
  name = component_name p;
  cmd = no_cmd;
  port_settings_changed = 0;
  config_changed = 0;
  in_buffers = 0;
  buf_in_notempty = 0;
  out_buffers = 0;
  buf_out_notempty = 0;
  eos = 0;
  is_running = 0;
}

module _ (f : BufferFlags) (cs : Commands) (il : Il) (answers : Answers) where
  -- The ports `port`, `port + 1` and so on, `n` of them.
  unfoldable pub disable_ports : Part → (n port : ℕ) → Cmd Machine (Unit {0})
  disable_ports p zero port m = ok (tt, m)
  disable_ports p (suc n) port m =
      and_then (omx_send_command_and_wait f il p cs.port_disable port 0 m)
        λ r. disable_ports p n (port + 1) r.1

  -- `OMX_GetParameter` for the domain `types[i]`; a domain that OpenMAX does not know is passed over.
  unfoldable pub disable_domains : Part → (i : ℕ) → List (Option (ℕ × ℕ)) → Cmd Machine (Unit {0})
  disable_domains p i [] m = ok (tt, m)
  disable_domains p i (none ∷ domains) m =
      disable_domains p (i + 1) domains
        (record m { log = get_port_param (m.component p).h i ∷ m.log })
  disable_domains p i (some (start, n) ∷ domains) m =
      and_then
        (disable_ports p n start (record m { log = get_port_param (m.component p).h i ∷ m.log }))
        λ r. disable_domains p (i + 1) domains r.1

  unfoldable pub omx_disable_all_ports : Part → Cmd Machine (Unit {0})
  omx_disable_all_ports p = disable_domains p 0 (answers.ports p)

  unfoldable pub omx_init_component : Part → Cmd Machine (Unit {0})
  omx_init_component p = do
    modify (set_component p (blank_component p))
    oerr il (get_handle (component_name p))
    modify (set_component p (record (blank_component p) { h = answers.handle p }))
    omx_disable_all_ports p

  unfoldable pub omx_flush_tunnel :
      (source : Part) (source_port : ℕ) (sink : Part) (sink_port : ℕ) → Cmd Machine (Unit {0})
  omx_flush_tunnel source source_port sink sink_port = do
    omx_send_command_and_wait f il source cs.flush source_port 0
    omx_send_command_and_wait f il sink cs.flush sink_port 0

  -- Behind the initialisation of the queue for encoded packets.
  unfoldable pub setup_components :
      PortDefinition → List (Ptr × BufferHeader) → (video_codec : ℕ) → Cmd Machine (Unit {0})
  setup_components portdef made video_codec = do
    omx_init_component video_decode
    omx_init_component image_fx
    omx_init_component video_encode
    omx_send_command_and_wait f il video_decode cs.state_set cs.idle 0
    omx_send_command_and_wait f il image_fx cs.state_set cs.idle 0
    m ← get
    oerr il (
        set_config (m.component image_fx).h cs.config_image_filter 191
          (1 ∷ 3 ∷ cs.deinterlace_advanced ∷ []))
    oerr il (
        set_parameter (m.component video_decode).h cs.param_video_port_format 130
          (video_codec ∷ []))
    oerr il (set_parameter (m.component video_decode).h cs.param_brcm_extra_buffers 131 (3 ∷ []))
    omx_send_command_and_wait0 il video_decode cs.port_enable 130 0
    omx_alloc_buffers il portdef made video_decode 130
    omx_send_command_and_wait1 f video_decode cs.port_enable 130 0
    omx_send_command_and_wait f il video_decode cs.state_set cs.executing 0

  module _ (api : ListApi Packet) where
    open api use {Head}

    unfoldable pub omx_setup_encoding_pipeline :
        PortDefinition
        → List (Ptr × BufferHeader)
        → (video_codec : ℕ) → PacketQueue Head
        → Cmd Machine (PacketQueue Head)
    omx_setup_encoding_pipeline portdef made video_codec q m =
        and_then (setup_components portdef made video_codec m)
          λ r. ok (packet_queue_init api q, r.1)
