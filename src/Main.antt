-- ===== src/Main.antt =====
-- main.c: the context that the three threads share, and what is done before and behind them. The
-- libraries' answers are the parameter `Host`; the threads are a function on the context.
pub mod Ready
pub mod Freed
mod Tests
use omxtranscode.Base.{
  ℕ, Bool, true, false, not, Option, none, some, List, [], ◌∷◌, ◌++◌, if◌then◌else◌, ltb_ℤ, ℤ, pos,
  ◌||◌, ◌==◌, Outcome, ok, fault, exits, and_then,
}
use omxtranscode.ListApi.{ListApi}
use omxtranscode.PacketQueue.{Ptr, Packet, PacketQueue, packet_queue_init, packet_queue_flush}
use omxtranscode.Mux.{Rational}
use Prim.Native.String.{String}

-- What `malloc` returns for the context, the names and the two queues, and what the memory holds: of
-- the context in `input_context`, and of the queues.
pub record Memory (Head : Type 0) : Type 0 where
  pub for_ctx : Ptr
  pub for_input_filename : Ptr
  pub for_output_filename : Ptr
  pub for_video_queue : Ptr
  pub for_audio_queue : Ptr
  pub input_context : Ptr
  pub video_memory : PacketQueue Head
  pub audio_memory : PacketQueue Head

-- What OpenMAX and FFmpeg answer. `is_context` tells the contexts that FFmpeg has allocated;
-- `avformat_open_input` is given the pointer and the name, and returns its result and the pointer then.
pub record Host : Type 0 where
  pub omx_init : Bool
  pub omx_deinit : Bool
  pub is_context : Ptr → Bool
  pub avformat_open_input : Ptr → String → ℤ × Ptr
  pub avformat_find_stream_info : Ptr → ℤ

-- `struct transcoder_ctx_t` with its allocations, as far as `main` sets it.
pub record GlobalCtx (Head : Type 0) : Type 0 where
  pub block : Ptr
  pub input_filename : Ptr × String
  pub output_filename : Ptr × String
  pub input_video_queue : Ptr × PacketQueue Head
  pub processed_audio_queue : Ptr × PacketQueue Head
  pub input_context : Ptr
  pub first_packet : ℕ
  pub omx_timebase : Rational

-- How the process ends, unless by `exit`: by `abort`, or with `main`, which has freed these.
pub data MainEnd : Type 0 where
  aborted : MainEnd
  returned : List Ptr → MainEnd

-- FFmpeg takes `NULL` or a context that it has allocated, and would follow any other pointer.
unfoldable pub open_input : Host → Ptr → String → Outcome (ℤ × Ptr)
open_input host input_context name =
    if (input_context == 0) || host.is_context input_context
    then ok (host.avformat_open_input input_context name)
    else fault

module _ (api : ListApi Packet) where
  open api use {Head}

  -- The context is passed on as `malloc` returned it. `none` is `abort()`.
  unfoldable pub init_global_ctx :
      Host → Memory Head → (input_file output_file : String) → Outcome (Option (GlobalCtx Head))
  init_global_ctx host mem input_file output_file =
      let global_ctx : GlobalCtx Head = record {
        block = mem.for_ctx;
        input_filename = (mem.for_input_filename, input_file);
        output_filename = (mem.for_output_filename, output_file);
        input_video_queue = (mem.for_video_queue, packet_queue_init api mem.video_memory);
        processed_audio_queue = (mem.for_audio_queue, packet_queue_init api mem.audio_memory);
        input_context = mem.input_context;
        first_packet = 1;
        omx_timebase = record { num = pos 1; den = pos 1000000 };
      } in
      and_then (open_input host global_ctx.input_context input_file) λ r.
        if ltb_ℤ r.0 (pos 0)
        then ok none
        else if ltb_ℤ (host.avformat_find_stream_info r.1) (pos 0)
        then ok none
        else ok (some (record global_ctx { input_context = r.1 }))

  -- Behind `OMX_Deinit`: the addresses freed, in order. The queue of encoded packets is left.
  unfoldable pub clean_up : GlobalCtx Head → List Ptr
  clean_up ctx =
      let (input_video_queue, video_freed) = packet_queue_flush api ctx.input_video_queue.1 in
      let (processed_audio_queue, audio_freed) =
        packet_queue_flush api ctx.processed_audio_queue.1 in
      ctx.input_filename.0
      ∷ ctx.output_filename.0
      ∷ (video_freed
          ++ ctx.input_video_queue.0
            ∷ (audio_freed ++ ctx.processed_audio_queue.0 ∷ ctx.block ∷ []))

  -- `threads` is what the three threads make of the context until all of them are joined.
  unfoldable pub main_program :
      Host
      → Memory Head
      → (input_file output_file : String) → (GlobalCtx Head → Outcome (GlobalCtx Head))
      → Outcome MainEnd
  main_program host mem input_file output_file threads =
      if not host.omx_init
      then exits 1
      else and_then (init_global_ctx host mem input_file output_file) λ c. elim c [
        | none ↦ ok aborted
        | some global_ctx ↦
            and_then (threads global_ctx)
              λ ctx. if host.omx_deinit then ok (returned (clean_up ctx)) else exits 1
      ]
