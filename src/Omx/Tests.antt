-- ===== src/Omx/Tests.antt =====
-- Runs of the command protocol and the event handler, and their theorems at concrete events.
use omxtranscode.Base.{◌≡◌, refl, List, [], ◌∷◌, arith, ◌>>◌}
use omxtranscode.Omx.{
  video_decode, image_fx, video_encode, event_cmd_complete, event_port_settings_changed,
  event_buffer_flag, event_mark, send_command, Delivery,
}
use omxtranscode.Omx.Command.{
  omx_send_command_and_wait, omx_send_command_and_wait0, omx_send_command_and_wait1,
}
use omxtranscode.Omx.Wait.{completes, SentAndEnded, send_command_and_wait-ending}
use omxtranscode.Omx.Overlap.{wait1-wait1, overlapping_waits}
use omxtranscode.Omx.Signal.{
  deliver_all, Flagged, some_event, fails, ends_stream, changes_port, deliver_all-Flagged,
}
use omxtranscode.Omx.Sample.{flags, machine, event, willing}

-- Another port first, then the completion that is waited for, then one event more.
abbrev events : List Delivery
events =
    event video_decode event_cmd_complete 2 131
    ∷ event image_fx event_cmd_complete 2 130
    ∷ event video_decode event_cmd_complete 2 130
    ∷ event video_decode event_mark 0 0
    ∷ []

send_command_and_wait-ending_example :
    SentAndEnded video_decode
      (send_command 1 2 130 ∷ [])
      (completes (event video_decode event_mark 0 0 ∷ []))
      (omx_send_command_and_wait flags willing video_decode 2 130 0 (machine events))
send_command_and_wait-ending_example =
    send_command_and_wait-ending flags willing video_decode 2 130 0 (machine events) (omega arith)
      refl

-- Only the second of two commands completes.
abbrev second_only : List Delivery
second_only = event video_encode event_cmd_complete 2 201 ∷ []

wait1-wait1_example :
    (omx_send_command_and_wait1 flags video_encode 2 201 0
        >> omx_send_command_and_wait1 flags video_encode 0 2 0)
      (machine second_only)
    ≡ omx_send_command_and_wait1 flags video_encode 2 201 0 (machine second_only)
wait1-wait1_example = wait1-wait1 flags video_encode 2 201 0 0 2 0 (machine second_only)

overlapping_waits_example :
    SentAndEnded video_encode (send_command 1 2 201 ∷ send_command 1 0 2 ∷ []) (completes []) (
      (omx_send_command_and_wait0 willing video_encode 0 2 0
          >> (omx_send_command_and_wait0 willing video_encode 2 201 0
              >> (omx_send_command_and_wait1 flags video_encode 2 201 0
                  >> omx_send_command_and_wait1 flags video_encode 0 2 0)))
        (machine second_only))
overlapping_waits_example =
    overlapping_waits flags willing video_encode 0 2 2 201 (machine second_only) (omega arith) refl
      refl

abbrev stream : List Delivery
stream =
    event video_encode event_port_settings_changed 201 0
    ∷ event video_decode event_buffer_flag 131 1
    ∷ event video_encode event_buffer_flag 201 1
    ∷ []

deliver_all-Flagged_example :
    Flagged flags video_encode
      (some_event (fails flags video_encode) stream)
      (some_event (ends_stream flags video_encode) stream)
      (some_event (changes_port flags video_encode) stream)
      (machine [])
      (deliver_all flags stream (machine []))
deliver_all-Flagged_example = deliver_all-Flagged flags video_encode stream (machine [])
