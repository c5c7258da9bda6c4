-- ===== src/Main/Tests.antt =====
-- A process whose threads leave one audio packet behind.
use omxtranscode.Base.{◌≡◌, refl, false, true, List, [], ◌∷◌, pos, ok}
use omxtranscode.PacketQueue.{Packet, packet_queue_init}
use omxtranscode.PacketQueue.Plain.{plain, packet, queue_of}
use omxtranscode.Main.{Memory, Host, GlobalCtx, returned, open_input, init_global_ctx, main_program}
use omxtranscode.Main.Ready.{Prepares, init_global_ctx-Prepares}
use omxtranscode.Main.Freed.{main_program-returned}

abbrev memory : Memory (List Packet)
memory = record {
  for_ctx = 1000;
  for_input_filename = 1001;
  for_output_filename = 1002;
  for_video_queue = 1003;
  for_audio_queue = 1004;
  input_context = 0;
  video_memory = queue_of (packet 9 ∷ []);
  audio_memory = queue_of [];
}

abbrev host : Host
host = record {
  omx_init = true;
  omx_deinit = true;
  is_context = λ p. false;
  avformat_open_input = λ p name. (pos 0, 2000);
  avformat_find_stream_info = λ p. pos 0;
}

init_global_ctx-Prepares_example :
    Prepares plain true true "in.mpg" "out.ts" 2000
      (init_global_ctx plain host memory "in.mpg" "out.ts")
init_global_ctx-Prepares_example = init_global_ctx-Prepares plain host memory "in.mpg" "out.ts"

abbrev start : GlobalCtx (List Packet)
start = record {
  block = 1000;
  input_filename = (1001, "in.mpg");
  output_filename = (1002, "out.ts");
  input_video_queue = (1003, queue_of []);
  processed_audio_queue = (1004, queue_of []);
  input_context = 2000;
  first_packet = 1;
  omx_timebase = record { num = pos 1; den = pos 1000000 };
}

abbrev leaves_one : GlobalCtx (List Packet) → GlobalCtx (List Packet)
leaves_one ctx = record ctx { processed_audio_queue = (1004, queue_of (packet 5 ∷ [])) }

main_program-returned_example :
    main_program plain host memory "in.mpg" "out.ts" (λ ctx. ok (leaves_one ctx))
    ≡ ok (returned (1001 ∷ 1002 ∷ 1003 ∷ 11 ∷ 12 ∷ 1004 ∷ 1000 ∷ []))
unfolding init_global_ctx packet_queue_init queue_of open_input
main_program-returned_example =
    main_program-returned plain host memory "in.mpg" "out.ts" (λ ctx. ok (leaves_one ctx)) start
      (leaves_one start) refl refl refl refl
      (record { ctx_block = refl; input = refl; output = refl; video = refl; audio = refl })
