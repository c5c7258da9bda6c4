-- ===== src/Omx/Command.antt =====
-- omx.c: sending a command to a component and waiting for its completion, and the event handler.
use omxtranscode.Base.{
  ℕ, true, false, ◌&&◌, List, [], ◌∷◌, ◌==◌, if◌then◌else◌, has_flag, Outcome, ok, exits, blocks,
  Cmd, ◌>>=◌, ◌>>◌, and_then, modify, get, map, ◌++◌,
}
use omxtranscode.External.{BufferFlags}
use omxtranscode.Omx.{
  Component, OmxCmd, Part, CondVar, cmd_queue_count_cv, eos_cv, EventType, event_error,
  event_cmd_complete, event_port_settings_changed, event_buffer_flag, event_mark,
  event_param_or_config_changed, event_other, Delivery, send_command, Machine, set_component, Il,
  oerr,
}
use omxtranscode.PacketQueue.{Ptr}

abbrev pub no_cmd : OmxCmd
no_cmd = record { h_component = 0; cmd = 0; n_param = 0; p_cmd_data = 0 }

-- The component after an event and the condition variables signalled; `exit(1)` on an error event.
unfoldable pub omx_event_handler :
    BufferFlags → Component → EventType → (n_data1 n_data2 : ℕ) → Outcome (Component × List CondVar)
omx_event_handler f c event_error d1 d2 = exits 1
omx_event_handler f c event_cmd_complete d1 d2 =
    if (d1 == c.cmd.cmd) && (d2 == c.cmd.n_param)
    then ok (record c { cmd = no_cmd }, cmd_queue_count_cv ∷ [])
    else ok (c, [])
omx_event_handler f c event_port_settings_changed d1 d2 =
    ok (record c { port_settings_changed = 1 }, [])
omx_event_handler f c event_buffer_flag d1 d2 =
    if has_flag d2 f.eos then ok (record c { eos = 1 }, eos_cv ∷ []) else ok (c, [])
omx_event_handler f c event_mark d1 d2 = ok (c, [])
omx_event_handler f c event_param_or_config_changed d1 d2 = ok (record c { config_changed = 1 }, [])
omx_event_handler f c (event_other n) d1 d2 = ok (c, [])

abbrev after_event : Part → Component × List CondVar → Machine → Machine
after_event t (c, vs) m = record (set_component t c m) {
  signals = map (λ v. (t, v)) vs ++ m.signals;
}

-- One event reaches the handler of its component.
unfoldable pub deliver : BufferFlags → Delivery → Cmd Machine (Unit {0})
unfolding omx_event_handler
deliver f d m =
    and_then (omx_event_handler f (m.component d.target) d.e_event d.n_data1 d.n_data2)
      λ r. ok (tt, after_event d.target r m)

unfoldable pub omx_send_command_and_wait0 :
    Il → Part → (cmd n_param : ℕ) (p_cmd_data : Ptr) → Cmd Machine (Unit {0})
omx_send_command_and_wait0 il p cmd n_param p_cmd_data = do
  modify λ m.
      set_component p
        (record (m.component p) {
          cmd = record {
            h_component = (m.component p).h;
            cmd = cmd;
            n_param = n_param;
            p_cmd_data = p_cmd_data;
          };
        })
        m
  m ← get
  oerr il (send_command (m.component p).h cmd n_param)

-- The wait on the condition variable: events arrive until the command of `p` is cleared.
unfoldable pub await : BufferFlags → Part → List Delivery → Machine → Outcome Machine
await f p [] m =
    if (m.component p).cmd.h_component == 0 then ok (record m { pending = [] }) else blocks
await f p (d ∷ ds) m = elim ((m.component p).cmd.h_component == 0) [
  | true ↦ ok (record m { pending = d ∷ ds })
  | false ↦ and_then (deliver f d m) λ r. await f p ds r.1
]

-- `Cmd`, `nParam` and `pCmdData` are not read.
unfoldable pub omx_send_command_and_wait1 :
    BufferFlags → Part → (cmd n_param : ℕ) (p_cmd_data : Ptr) → Cmd Machine (Unit {0})
omx_send_command_and_wait1 f p cmd n_param p_cmd_data m =
    and_then (await f p m.pending m) λ m'. ok (tt, m')

unfoldable pub omx_send_command_and_wait :
    BufferFlags → Il → Part → (cmd n_param : ℕ) (p_cmd_data : Ptr) → Cmd Machine (Unit {0})
omx_send_command_and_wait f il p cmd n_param p_cmd_data = do
  omx_send_command_and_wait0 il p cmd n_param p_cmd_data
  omx_send_command_and_wait1 f p cmd n_param p_cmd_data
