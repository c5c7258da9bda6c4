-- ===== src/Omx/Sample.antt =====
-- A machine with three components and two buffers, for runs.
use omxtranscode.Base.{ℕ, true, none, some, List, [], ◌∷◌, ◌==◌, if◌then◌else◌}
use omxtranscode.External.{BufferFlags, Commands}
use omxtranscode.PacketQueue.{Ptr}
use omxtranscode.Omx.{
  BufferHeader, Heap, Component, omx_generic_fill_buffer_done, Part, Delivery, EventType, Machine,
  Il,
}
use omxtranscode.Omx.Command.{no_cmd}

-- The values of the OpenMAX headers.
abbrev pub flags : BufferFlags
flags = record {
  eos = 0x1;
  starttime = 0x2;
  time_unknown = 0x100;
  endofframe = 0x10;
  syncframe = 0x20;
  endofnal = 0x400;
}

-- Values of the other constants, made up.
abbrev pub commands : Commands
commands = record {
  state_set = 0;
  port_enable = 3;
  port_disable = 2;
  flush = 1;
  idle = 2;
  executing = 3;
  config_image_filter = 4;
  deinterlace_advanced = 5;
  param_brcm_extra_buffers = 6;
  param_video_port_format = 1;
  param_video_bitrate = 2;
  coding_avc = 7;
  control_rate_variable = 1;
}

abbrev pub header : ℕ → Ptr → BufferHeader
header filled next = record {
  p_buffer = 7 ∷ 8 ∷ 9 ∷ [];
  n_alloc_len = 3;
  n_filled_len = filled;
  n_flags = 0;
  n_time_stamp = record { n_low_part = 5; n_high_part = 0 };
  p_app_private = next;
}

-- The input list is 10, 20 and the output list 30, 40; the header at 50 is in neither.
abbrev pub heap : Heap
heap a =
    if a == 10
    then some (header 3 20)
    else if a == 20
    then some (header 0 0)
    else if a == 30
    then some (header 0 40)
    else if a == 40
    then some (header 0 0)
    else if a == 50
    then some (header 2 0)
    else none

abbrev pub sample_component : Component
sample_component = record {
  h = 1;
  fill_buffer_done = omx_generic_fill_buffer_done;
  name = "OMX.broadcom.video_decode";
  cmd = no_cmd;
  port_settings_changed = 0;
  config_changed = 0;
  in_buffers = 10;
  buf_in_notempty = 1;
  out_buffers = 30;
  buf_out_notempty = 1;
  eos = 0;
  is_running = 0;
}

abbrev pub event : Part → EventType → ℕ → ℕ → Delivery
event t e d1 d2 = record { target = t; e_event = e; n_data1 = d1; n_data2 = d2 }

abbrev pub machine : List Delivery → Machine
machine ds = record {
  component = λ _. sample_component;
  heap = heap;
  log = [];
  signals = [];
  pending = ds;
}

-- OpenMAX accepts every call.
abbrev pub willing : Il
willing _ _ = true
