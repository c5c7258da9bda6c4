-- ===== src/Main/Ready.antt =====
-- `init_global_ctx`: the context that the threads start with.
use omxtranscode.Base.{
  ◌≡◌, refl, Bool, true, false, not, ◌&&◌, Option, none, some, [], arith, ltb_ℤ, pos, ◌||◌, ◌==◌,
  Outcome, ok, fault,
}
use omxtranscode.ListApi.{ListApi}
use omxtranscode.PacketQueue.{Ptr, Packet, packet_queue_init, contents, IsCounted}
use omxtranscode.PacketQueue.{PacketQueue}
use omxtranscode.Main.{Memory, Host, GlobalCtx, open_input, init_global_ctx}
use Prim.Native.String.{String}

module _ (api : ListApi Packet) where
  open api use {Head, entries-init}

  -- An empty queue that more packets may come to.
  pub record IsFresh (q : PacketQueue Head) : Type 0 where
    pub empty : contents api q ≡ []
    pub counted : IsCounted api q
    pub unfinished : q.queue_finished ≡ 0

  -- The context for these files, with the input opened as `opened`.
  pub record IsReady (input_file output_file : String) (opened : Ptr) (ctx : GlobalCtx Head)
      : Type 0 where
    pub context : ctx.input_context ≡ opened
    pub input : ctx.input_filename.1 ≡ input_file
    pub output : ctx.output_filename.1 ≡ output_file
    pub video : IsFresh ctx.input_video_queue.1
    pub audio : IsFresh ctx.processed_audio_queue.1
    pub first : ctx.first_packet ≡ 1
    pub ticks : ctx.omx_timebase ≡ record { num = pos 1; den = pos 1000000 }

  -- FFmpeg may be given the pointer.
  abbrev pub is_usable : Host → Ptr → Bool
  is_usable host p = (p == 0) || host.is_context p

  -- FFmpeg opens the file and finds its streams.
  abbrev pub is_readable : Host → Ptr → String → Bool
  is_readable host p input_file =
      let opened = host.avformat_open_input p input_file in
      not (ltb_ℤ opened.0 (pos 0)) && not (ltb_ℤ (host.avformat_find_stream_info opened.1) (pos 0))

  abbrev pub Prepares :
      (usable readable : Bool) (input_file output_file : String) (opened : Ptr)
      → Outcome (Option (GlobalCtx Head))
      → Type 0
  Prepares true true input_file output_file opened (ok (some ctx)) =
      IsReady input_file output_file opened ctx
  Prepares true false input_file output_file opened (ok none) = Unit {0}
  Prepares false readable input_file output_file opened fault = Unit {0}
  Prepares _ _ input_file output_file opened _ = ⊥

  init-IsFresh : (q : PacketQueue Head) → IsFresh (packet_queue_init api q)
  unfolding packet_queue_init
  init-IsFresh q = record {
    empty = entries-init;
    counted = ground (arith, entries-init);
    unfinished = refl;
  }

  -- `init_global_ctx` gives `avformat_open_input` what the memory for the context holds in
  -- `input_context`: undefined behaviour, unless that is `NULL` or a context that FFmpeg has allocated.
  -- If it is one of these, the function aborts just if FFmpeg cannot open the input file or find its
  -- streams. Else the context has the opened input, the two names, two empty queues with a count of 0
  -- that are not finished, the mark for the first packet, and microseconds as the time base of OpenMAX.
  pub init_global_ctx-Prepares :
      (host : Host) (mem : Memory Head) (input_file output_file : String)
      → Prepares
          (is_usable host mem.input_context)
          (is_readable host mem.input_context input_file)
          input_file
          output_file
          (host.avformat_open_input mem.input_context input_file).1
          (init_global_ctx api host mem input_file output_file)
  unfolding init_global_ctx open_input
  init_global_ctx-Prepares host mem input_file output_file =
      grind (arith, init-IsFresh mem.video_memory, init-IsFresh mem.audio_memory)
