-- ===== src/Main/Freed.antt =====
-- What `main` frees.
use omxtranscode.Base.{◌≡◌, true, some, [], ◌∷◌, ◌++◌, Outcome, ok}
use omxtranscode.ListApi.{ListApi}
use omxtranscode.PacketQueue.{Packet, contents}
use omxtranscode.PacketQueue.Memory.{owned_all, flush-owned}
use omxtranscode.Main.{Memory, Host, GlobalCtx, returned, init_global_ctx, clean_up, main_program}
use Prim.Native.String.{String}

module _ (api : ListApi Packet) where
  open api use {Head}

  -- The allocations are still where `init_global_ctx` got them.
  pub record IsInPlace (mem : Memory Head) (ctx : GlobalCtx Head) : Type 0 where
    pub ctx_block : ctx.block ≡ mem.for_ctx
    pub input : ctx.input_filename.0 ≡ mem.for_input_filename
    pub output : ctx.output_filename.0 ≡ mem.for_output_filename
    pub video : ctx.input_video_queue.0 ≡ mem.for_video_queue
    pub audio : ctx.processed_audio_queue.0 ≡ mem.for_audio_queue

  clean_up-owned :
      (mem : Memory Head) (ctx : GlobalCtx Head)
      → IsInPlace mem ctx
      → clean_up api ctx
        ≡ mem.for_input_filename
          ∷ mem.for_output_filename
          ∷ (owned_all (contents api ctx.input_video_queue.1)
              ++ mem.for_video_queue
                ∷ (owned_all (contents api ctx.processed_audio_queue.1)
                    ++ mem.for_audio_queue ∷ mem.for_ctx ∷ []))
  unfolding clean_up
  clean_up-owned mem ctx h = rw (
    h.input,
    h.output,
    h.video,
    h.audio,
    h.ctx_block,
    (flush-owned api ctx.input_video_queue.1).2,
    (flush-owned api ctx.processed_audio_queue.1).2,
  )

  -- If OpenMAX starts and stops, FFmpeg can read the input file, and the three threads end and leave
  -- the allocations in place: `main` returns and has freed, in order, the two names, what the packets
  -- left in the video queue own, that queue, what those left in the audio queue own, that queue, and
  -- the context.
  pub main_program-returned :
      (host : Host) (mem : Memory Head) (input_file output_file : String)
      (threads : GlobalCtx Head → Outcome (GlobalCtx Head)) (start ctx : GlobalCtx Head)
      → host.omx_init ≡ true
      → host.omx_deinit ≡ true
      → init_global_ctx api host mem input_file output_file ≡ ok (some start)
      → threads start ≡ ok ctx
      → IsInPlace mem ctx
      → main_program api host mem input_file output_file threads
        ≡ ok (
            returned (
              mem.for_input_filename
              ∷ mem.for_output_filename
              ∷ (owned_all (contents api ctx.input_video_queue.1)
                  ++ mem.for_video_queue
                    ∷ (owned_all (contents api ctx.processed_audio_queue.1)
                        ++ mem.for_audio_queue ∷ mem.for_ctx ∷ []))))
  unfolding main_program
  main_program-returned host mem input_file output_file threads start ctx starts stops readable ends
        h =
      simp (main_program, starts, stops, readable, ends, clean_up-owned mem ctx h)
