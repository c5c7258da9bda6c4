-- ===== src/Omx.antt =====
-- omx.h: the components of the pipeline, their buffers, and the machine that they form with the
-- OpenMAX library. The library is a parameter: it answers each call with success or an error, and
-- delivers events in the order of `pending`.
pub mod Command
pub mod Signal
pub mod Wait
pub mod Overlap
pub mod Sample
mod Tests
use omxtranscode.Base.{
  ℕ, ◌≡◌, Bool, true, false, Option, none, some, List, [], ◌∷◌, ◌++◌, ◌==◌, if◌then◌else◌, Outcome,
  ok, exits, Cmd, ◌>>=◌, ◌>>◌, pure,
}
use omxtranscode.Ticks.{OmxTicks}
use omxtranscode.PacketQueue.{Ptr}
use Prim.Native.String.{String}

-- `OMX_BUFFERHEADERTYPE`, with what `pBuffer` points to.
pub record BufferHeader : Type 0 where
  pub p_buffer : List ℕ
  pub n_alloc_len : ℕ
  pub n_filled_len : ℕ
  pub n_flags : ℕ
  pub n_time_stamp : OmxTicks
  pub p_app_private : Ptr

abbrev pub Heap : Type 0
Heap = Ptr → Option BufferHeader

-- `struct omx_cmd_t`
pub record OmxCmd : Type 0 where
  pub h_component : Ptr
  pub cmd : ℕ
  pub n_param : ℕ
  pub p_cmd_data : Ptr

-- The callback that `FillBufferDone` is set to.
pub data FillBufferDone : Type 0 where
  omx_encoder_fill_buffer_done omx_generic_fill_buffer_done : FillBufferDone

-- `struct omx_component_t`, without its mutexes and condition variables.
pub record Component : Type 0 where
  pub h : Ptr
  pub fill_buffer_done : FillBufferDone
  pub name : String
  pub cmd : OmxCmd
  pub port_settings_changed : ℕ
  pub config_changed : ℕ
  pub in_buffers : Ptr
  pub buf_in_notempty : ℕ
  pub out_buffers : Ptr
  pub buf_out_notempty : ℕ
  pub eos : ℕ
  pub is_running : ℕ

-- The components of `struct omx_pipeline_t`; a `struct omx_component_t *` is one of these.
pub data Part : Type 0 where
  video_decode image_fx video_encode : Part

-- The condition variables of a component.
pub data CondVar : Type 0 where
  cmd_queue_count_cv buf_in_notempty_cv buf_out_notempty_cv eos_cv is_running_cv : CondVar

-- `OMX_EVENTTYPE`, as far as the event handler tells the events apart.
pub data EventType : Type 0 where
  event_error event_cmd_complete event_port_settings_changed event_buffer_flag event_mark :
      EventType
  event_param_or_config_changed : EventType
  event_other : ℕ → EventType

-- An event on its way to the event handler of one component.
pub record Delivery : Type 0 where
  pub target : Part
  pub e_event : EventType
  pub n_data1 : ℕ
  pub n_data2 : ℕ

-- Calls of the OpenMAX library.
pub data IlCall : Type 0 where
  send_command : (h : Ptr) (cmd n_param : ℕ) → IlCall
  get_handle : String → IlCall
  get_port_param : (h : Ptr) (domain : ℕ) → IlCall
  get_port_definition : (h : Ptr) (port : ℕ) → IlCall
  set_parameter : (h : Ptr) (index port : ℕ) (values : List ℕ) → IlCall
  set_config : (h : Ptr) (index port : ℕ) (values : List ℕ) → IlCall
  setup_tunnel : (h_out : Ptr) (port_out : ℕ) (h_in : Ptr) (port_in : ℕ) → IlCall
  use_buffer : (h : Ptr) (port : ℕ) → IlCall
  free_buffer : (h : Ptr) (port : ℕ) (buffer : Ptr) → IlCall
  empty_this_buffer : (h : Ptr) (buffer : Ptr) → IlCall
  fill_this_buffer : (h : Ptr) (buffer : Ptr) → IlCall

abbrev pub same_part : Part → Part → Bool
same_part video_decode video_decode = true
same_part image_fx image_fx = true
same_part video_encode video_encode = true
same_part _ _ = false

-- The log holds the calls made so far, last first, and `signals` the condition variables signalled.
pub record Machine : Type 0 where
  pub component : Part → Component
  pub heap : Heap
  pub log : List IlCall
  pub signals : List (Part × CondVar)
  pub pending : List Delivery

abbrev pub set_component : Part → Component → Machine → Machine
set_component p c m = record m { component = λ q. if same_part p q then c else m.component q }

-- Whether a call returns `OMX_ErrorNone`, given the calls before it.
abbrev pub Il : Type 0
Il = List IlCall → IlCall → Bool

-- `OERR(call)`: on an error the process exits with status 1.
unfoldable pub oerr : Il → IlCall → Cmd Machine (Unit {0})
oerr il call m = if il m.log call then ok (tt, record m { log = call ∷ m.log }) else exits 1
