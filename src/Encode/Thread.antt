-- ===== src/Encode/Thread.antt =====
-- `decode_thread` as a whole: the set-up of the pipeline, the packets, and the buffer that ends the
-- stream.
use omxtranscode.Base.{
  ℕ, ◌≡◌, ◌≢◌, refl, some, List, [], ◌∷◌, bit_or, Outcome, ok, exits, blocks, fault, and_then,
  Yields, Yields-next,
}
use omxtranscode.ListApi.{ListApi}
use omxtranscode.PacketQueue.{Ptr, Packet, PacketQueue, contents, IsCounted}
use omxtranscode.Omx.{
  BufferHeader, IlCall, empty_this_buffer, video_decode, image_fx, video_encode, Delivery, Machine,
}
use omxtranscode.Buffer.{write}
use omxtranscode.Buffer.Chain.{load-ok, write_self}
use omxtranscode.Ports.{PortDefinition}
use omxtranscode.Ports.Alloc.{Accepts, Fresh, addresses, oerr-ok}
use omxtranscode.Ports.Headers.{Everywhere, ForgetsLinks, AllMade}
use omxtranscode.Pipeline.{Answers, omx_setup_encoding_pipeline}
use omxtranscode.Pipeline.Setup.{awaited, IsSetUp, setup_encoding_pipeline-IsSetUp}
use omxtranscode.Encode.{Setting, Decoder, decode_loop, finish_stream}
use omxtranscode.Encode.Chunks.{sent_bytes}
use omxtranscode.Encode.Feed.{Supplies, after_sent}
use omxtranscode.Encode.Arrivals.{Feeds}
use omxtranscode.Encode.Stream.{
  AreWhole, all_bytes, freeing, DecodedTo, Decodes, decode_loop-Decodes,
}

-- How OpenMAX sets the components and the decoder's input port up.
pub record SetUp : Type 0 where
  pub answers : Answers
  pub decoder_input : PortDefinition
  pub decoder_buffers : List (Ptr × BufferHeader)
  pub video_codec : ℕ

module _ (set : Setting) (up : SetUp) (api : ListApi Packet) where
  open api use {Head}

  -- What the thread shares with the others.
  pub record Shared : Type 0 where
    pub input_video_queue : PacketQueue Head
    pub encoded_video_queue : PacketQueue Head
    pub first_packet : ℕ
    pub machine : Machine

  -- The thread at its end: the queue for encoded packets, the loop's state, and the machine behind
  -- the buffer `last`.
  pub record Finished : Type 0 where
    pub encoded_video_queue : PacketQueue Head
    pub decoder : Decoder set api
    pub last : Ptr
    pub machine : Machine

  -- `p` and `bytes_left` get their values with the first packet.
  abbrev pub decoder_of : Shared → Machine → Decoder set api
  decoder_of c m = record {
    input_video_queue = c.input_video_queue;
    feeder = record {
      machine = m;
      p = [];
      bytes_left = 0;
      first_packet = c.first_packet;
      sent = [];
    };
    freed = [];
  }

  module _ (k : ℕ) (arrivals : ℕ → List (PacketQueue Head → PacketQueue Head))
      (during : ℕ → PacketQueue Head → PacketQueue Head) (env : ℕ → ℕ → List (Machine → Machine))
      (ws : List (Machine → Machine)) where
    -- For `n` packets at most; `ws` is what others do while the thread waits for the last buffer.
    unfoldable pub decode_thread : ℕ → Shared → Outcome Finished
    decode_thread n c =
        and_then
          (omx_setup_encoding_pipeline set.buffer_flags set.commands set.il up.answers api
            up.decoder_input up.decoder_buffers up.video_codec c.encoded_video_queue c.machine)
          λ r. and_then (decode_loop set api k arrivals during env n (decoder_of c r.1)) λ d.
            and_then (finish_stream set k ws d.feeder.machine)
              λ e. ok (record { encoded_video_queue = r.0; decoder = d; last = e.0; machine = e.1 })

    module _ (IsFine : Machine → Type 0) (accepts : Accepts set.il) where
      abbrev final_flags : ℕ
      final_flags = bit_or set.buffer_flags.time_unknown set.buffer_flags.eos

      -- The decoder has got the bytes of `ps`, and then an empty buffer that ends the stream.
      pub record IsDecoded (ps : List Packet) (e : Finished) : Type 0 where
        pub pieces : List BufferHeader
        pub bytes : sent_bytes pieces ≡ all_bytes ps
        pub handed : e.decoder.feeder.sent ≡ after_sent pieces []
        pub remaining : contents api e.decoder.input_video_queue ≡ []
        pub released : e.decoder.freed ≡ freeing ps []
        pub end : BufferHeader
        pub end_at : e.machine.heap e.last ≡ some end
        pub no_bytes : end.n_filled_len ≡ 0
        pub marked : end.n_flags ≡ final_flags
        pub earlier : List IlCall
        pub end_handed :
            e.machine.log ≡ empty_this_buffer (e.machine.component video_decode).h e.last ∷ earlier

      -- The last buffer, on a machine that has one to give.
      record IsEnd (r : Ptr × Machine) : Type 0 where
        end : BufferHeader
        at : r.1.heap r.0 ≡ some end
        no_bytes : end.n_filled_len ≡ 0
        marked : end.n_flags ≡ final_flags
        earlier : List IlCall
        handed : r.1.log ≡ empty_this_buffer (r.1.component video_decode).h r.0 ∷ earlier

      finish-IsEnd :
          (m : Machine)
          → Supplies set k (λ n. ws) IsFine 0 m
          → Yields IsEnd (finish_stream set k ws m)
      unfolding finish_stream
      finish-IsEnd m u =
          let final = record u.header { n_filled_len = 0; n_flags = final_flags } in
          rw
            (
              finish_stream,
              u.got,
              load-ok u.after.heap u.buffer u.header u.some_buffer u.held,
              oerr-ok set.il (empty_this_buffer (u.after.component video_decode).h u.buffer)
                  (record u.after { heap = write u.after.heap u.buffer (some final) }) accepts,
            )
            (record {
              end = final;
              at = write_self u.after.heap u.buffer _;
              no_bytes = refl;
              marked = refl;
              earlier = u.after.log;
              handed = refl;
            })

      decoded_yields :
          (ps : List Packet) (d : Decoder set api) (o : Outcome (Decoder set api))
          → Decodes set api IsFine ps d o
          → Yields (DecodedTo set api IsFine ps d) o
      decoded_yields ps d (ok d') h = h
      decoded_yields ps d (exits n) h = h
      decoded_yields ps d blocks h = h
      decoded_yields ps d fault h = h

      -- If OpenMAX accepts every call, gives each component a handle, makes the decoder's headers at
      -- addresses of their own with the `NULL` that it was given, and delivers, first, the
      -- completions that the set-up awaits; if the pipeline so set up, with headers of which `P`
      -- holds as of those made and of those in memory, is and stays such that in each round, and at
      -- the end, there comes a buffer that takes data and the configuration ends; and if the
      -- queue, with what other threads add to it, gives the packets `ps`, each as long as its bytes,
      -- and is then finished: then
      -- `decode_thread` ends. The buffers handed to the decoder hold the bytes of these packets, in
      -- order and complete, and the last call hands over an empty buffer with
      -- `OMX_BUFFERFLAG_EOS`; the queue is empty, and each packet has been freed once with its bytes.
      pub decode_thread-IsDecoded :
          (P : Ptr → BufferHeader → Type 0) (ds : List Delivery) (ps : List Packet) (n : ℕ)
          (c : Shared)
          → up.answers.handle video_decode ≢ 0
          → up.answers.handle image_fx ≢ 0
          → up.answers.handle video_encode ≢ 0
          → Fresh [] up.decoder_buffers
          → ForgetsLinks P
          → AllMade P up.decoder_buffers
          → Everywhere P c.machine.heap
          → c.machine.pending ≡ awaited set.buffer_flags set.il accepts set.commands up.answers ds
          → ((m : Machine)
              → IsSetUp set.buffer_flags set.il accepts set.commands up.answers P up.decoder_input
                  (addresses up.decoder_buffers)
                  ds
                  m
              → IsFine m)
          → ((i j : ℕ) (m : Machine) → IsFine m → Supplies set k (env i) IsFine j m)
          → ((m : Machine) → IsFine m → Supplies set k (λ j. ws) IsFine 0 m)
          → Feeds set api arrivals during ps n c.input_video_queue
          → AreWhole ps
          → Yields (IsDecoded ps) (decode_thread n c)
      unfolding decode_thread
      decode_thread-IsDecoded P ds ps n c live_d live_i live_e fresh forgets good all pending starts
            supply final fed whole =
          Yields-next {A = PacketQueue Head × Machine}
            (λ r.
              IsSetUp set.buffer_flags set.il accepts set.commands up.answers P up.decoder_input
                (addresses up.decoder_buffers) ds r.1
              × (contents api r.0 ≡ [])
              × IsCounted api r.0)
            (IsDecoded ps) _ _
            (setup_encoding_pipeline-IsSetUp set.buffer_flags set.il accepts set.commands up.answers
              api P up.decoder_input up.decoder_buffers up.video_codec c.encoded_video_queue
              c.machine ds live_d live_i live_e fresh forgets good all pending)
            λ r h.
              Yields-next (DecodedTo set api IsFine ps (decoder_of c r.1)) (IsDecoded ps) _ _
                (decoded_yields ps (decoder_of c r.1) _ (
                  decode_loop-Decodes set api k arrivals during env IsFine accepts supply ps n
                    (decoder_of c r.1) (starts r.1 h.0) fed whole))
                λ d t.
                  Yields-next IsEnd (IsDecoded ps) _ _
                    (finish-IsEnd d.feeder.machine (final d.feeder.machine t.fine))
                    λ x z. record {
                      pieces = t.pieces;
                      bytes = t.bytes;
                      handed = t.handed;
                      remaining = t.remaining;
                      released = t.released;
                      end = z.end;
                      end_at = z.at;
                      no_bytes = z.no_bytes;
                      marked = z.marked;
                      earlier = z.earlier;
                      end_handed = z.handed;
                    }
