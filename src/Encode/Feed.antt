-- ===== src/Encode/Feed.antt =====
-- The inner loop of `decode_thread`: the whole packet reaches the decoder.
use omxtranscode.Base.{
  ℕ, zero, suc, ◌≤◌, ◌<◌, ◌≡◌, ◌∙◌, ◌≢◌, refl, sym, false, some, List, [], ◌∷◌, arith, ◌==◌, length,
  min, take, drop, length-drop, length-take, length-append, Outcome, ok, exits, blocks, fault,
  and_then,
}
use omxtranscode.PacketQueue.{Ptr, Packet}
use omxtranscode.Omx.{
  BufferHeader, video_decode, image_fx, video_encode, empty_this_buffer, Machine,
}
use omxtranscode.Buffer.{write, omx_get_next_input_buffer}
use omxtranscode.Buffer.Chain.{load-ok}
use omxtranscode.Ports.Alloc.{Accepts, oerr-ok}
use omxtranscode.Encode.{Feeder, Setting, if_changed, configure_pipeline, feed_buffer, feed_loop}
use omxtranscode.Encode.Chunks.{
  AreChunks, sent_bytes, AreChunks-sent_bytes, filled_header, rest_of, fill_buffer-filled_header,
  filled_header-IsChunk,
}

-- The headers `bs`, in order, on top of those sent before.
abbrev pub after_sent : List BufferHeader → List BufferHeader → List BufferHeader
after_sent [] sent = sent
after_sent (b ∷ bs) sent = after_sent bs (b ∷ sent)

-- No component waits to be configured.
pub record IsQuiet (m : Machine) : Type 0 where
  pub decoder : ((m.component video_decode).port_settings_changed == 1) ≡ false
  pub deinterlacer : ((m.component image_fx).port_settings_changed == 1) ≡ false
  pub encoder : ((m.component video_encode).port_settings_changed == 1) ≡ false

-- The header `b` with other contents and as much memory.
pub record HasRoomOf (b b' : BufferHeader) : Type 0 where
  pub same_room : b'.n_alloc_len ≡ b.n_alloc_len
  pub same_size : length b'.p_buffer ≡ length b.p_buffer
  pub same_next : b'.p_app_private ≡ b.p_app_private

module _ (set : Setting) (k : ℕ) (env : ℕ → List (Machine → Machine))
    (IsFine : Machine → Type 0) where
  -- In a round, `omx_get_next_input_buffer` finds a buffer that can take data, and the pipeline is
  -- configured as far as it has to be, with the filled buffer still there; and so it is again after
  -- the buffer has been handed over.
  pub record Supplies (n : ℕ) (m : Machine) : Type 0 where
    pub buffer : Ptr
    pub after : Machine
    pub header : BufferHeader
    pub got : omx_get_next_input_buffer k video_decode (env n) m ≡ ok (buffer, after)
    pub some_buffer : buffer ≢ 0
    pub held : after.heap buffer ≡ some header
    pub room : 0 < header.n_alloc_len
    pub sized : length header.p_buffer ≡ header.n_alloc_len
    pub later : BufferHeader → Machine
    pub configured :
        (b : BufferHeader)
        → configure_pipeline set (record after { heap = write after.heap buffer (some b) })
          ≡ ok (tt, later b)
    pub later_held : (b : BufferHeader) → (later b).heap buffer ≡ some b
    pub again :
        (b : BufferHeader)
        → HasRoomOf header b
        → IsFine (record (later b) {
          log = empty_this_buffer ((later b).component video_decode).h buffer ∷ (later b).log;
        })

  pub configure-quiet : (m : Machine) → IsQuiet m → configure_pipeline set m ≡ ok (tt, m)
  unfolding configure_pipeline if_changed
  configure-quiet m q = rw (q.decoder, q.deinterlacer, q.encoder)

  module _ (packet : Packet) (accepts : Accepts set.il) where
    abbrev filled : Feeder → BufferHeader → BufferHeader
    filled = filled_header set.buffer_flags set.av_pkt_flag_key packet

    abbrev left : Feeder → BufferHeader → Feeder
    left = rest_of set.buffer_flags set.av_pkt_flag_key packet

    -- The feeder after a round.
    after_round : (n : ℕ) (s : Feeder) → Supplies n s.machine → Feeder
    after_round n s u = record (left s u.header) {
      machine =
          let m = u.later (filled s u.header) in
          record m { log = empty_this_buffer (m.component video_decode).h u.buffer ∷ m.log };
      sent = filled s u.header ∷ s.sent;
    }

    feed_buffer-after_round :
        (n : ℕ) (s : Feeder) (u : Supplies n s.machine)
        → length s.p ≡ s.bytes_left
        → feed_buffer set k (env n) packet s ≡ ok (after_round n s u)
    unfolding feed_buffer after_round
    feed_buffer-after_round n s u whole =
        let m = u.later (filled s u.header) in
        rw (
          u.got,
          load-ok u.after.heap u.buffer u.header u.some_buffer u.held,
          fill_buffer-filled_header set.buffer_flags set.av_pkt_flag_key packet s u.header whole
              u.sized,
          u.configured (filled s u.header),
          load-ok m.heap u.buffer (filled s u.header) u.some_buffer
              (u.later_held (filled s u.header)),
          oerr-ok set.il (empty_this_buffer (m.component video_decode).h u.buffer) m accepts,
        )

    -- `s'` is `s` behind a packet that reached the decoder in `pieces`.
    pub record FedTo (s s' : Feeder) : Type 0 where
      pub pieces : List BufferHeader
      pub chunks : AreChunks set.buffer_flags set.av_pkt_flag_key packet s.first_packet s.p pieces
      pub joined : sent_bytes pieces ≡ s.p
      pub handed : s'.sent ≡ after_sent pieces s.sent
      pub all_sent : s'.bytes_left ≡ 0
      pub fine : IsFine s'.machine

    abbrev pub Fed : Feeder → Outcome Feeder → Type 0
    Fed s (ok s') = FedTo s s'
    Fed s _ = ⊥

    nothing_left : (s : Feeder) → length s.p ≡ 0 → s.p ≡ []
    nothing_left s e = empty s.p e
      where
        empty : (l : List ℕ) → length l ≡ 0 → l ≡ []
        empty [] e = refl
        empty (x ∷ l) e = absurd (omega arith)

    fed_end :
        (s : Feeder) → length s.p ≡ s.bytes_left → s.bytes_left ≡ 0 → IsFine s.machine → FedTo s s
    fed_end s whole e fine = record {
      pieces = [];
      chunks = nothing_left s (whole ∙ e);
      joined = sym (nothing_left s (whole ∙ e));
      handed = refl;
      all_sent = e;
      fine = fine;
    }

    Fed-round :
        (n : ℕ) (s : Feeder) (u : Supplies n s.machine) (o : Outcome Feeder)
        → length s.p ≡ s.bytes_left
        → 0 < s.bytes_left
        → Fed (after_round n s u) o
        → Fed s o
    unfolding after_round
    Fed-round n s u (ok s') whole some_left t =
        let first =
          filled_header-IsChunk set.buffer_flags set.av_pkt_flag_key packet s u.header whole
            some_left u.room in
        record {
          pieces = filled s u.header ∷ t.pieces;
          chunks = (first, t.chunks);
          joined =
              AreChunks-sent_bytes set.buffer_flags set.av_pkt_flag_key packet s.first_packet s.p
                (filled s u.header ∷ t.pieces) (first, t.chunks);
          handed = t.handed;
          all_sent = t.all_sent;
          fine = t.fine;
        }
    Fed-round n s u (exits c) whole some_left t = t
    Fed-round n s u blocks whole some_left t = t
    Fed-round n s u fault whole some_left t = t

    feed_loop-done : (n : ℕ) (s : Feeder) → s.bytes_left ≡ 0 → feed_loop set k env n packet s ≡ ok s
    unfolding feed_loop
    feed_loop-done zero s e = ground (arith, e)
    feed_loop-done (suc n) s e = ground (arith, e)

    feed_loop-round :
        (n : ℕ) (s : Feeder)
        → (s.bytes_left == 0) ≡ false
        → feed_loop set k env (suc n) packet s
          ≡ and_then (feed_buffer set k (env n) packet s) (λ s'. feed_loop set k env n packet s')
    unfolding feed_loop
    feed_loop-round n s some_left = ground (arith, some_left)

    after_round-whole :
        (n : ℕ) (s : Feeder) (u : Supplies n s.machine)
        → length s.p ≡ s.bytes_left
        → length (after_round n s u).p ≡ (after_round n s u).bytes_left
    unfolding after_round
    after_round-whole n s u whole =
        omega (arith, length-drop (min s.bytes_left u.header.n_alloc_len) s.p)

    after_round-less :
        (n : ℕ) (s : Feeder) (u : Supplies n s.machine)
        → 0 < s.bytes_left
        → (after_round n s u).bytes_left < s.bytes_left
    unfolding after_round
    after_round-less n s u some_left = omega (arith, u.room)

    after_round-IsFine :
        (n : ℕ) (s : Feeder) (u : Supplies n s.machine)
        → length s.p ≡ s.bytes_left
        → IsFine (after_round n s u).machine
    unfolding after_round
    after_round-IsFine n s u whole =
        u.again (filled s u.header)
          (record { same_room = refl; same_size = same_size; same_next = refl })
      where
        same_size : length (filled s u.header).p_buffer ≡ length u.header.p_buffer
        same_size =
            let c = min s.bytes_left u.header.n_alloc_len in
            omega (
              arith,
              length-append (take c s.p) (drop c u.header.p_buffer),
              length-take c s.p,
              length-drop c u.header.p_buffer,
              u.sized,
            )

    feed_loop-from :
        (supply : (n : ℕ) (m : Machine) → IsFine m → Supplies n m) (n : ℕ) (s : Feeder) (b : ℕ)
        → IsFine s.machine
        → length s.p ≡ s.bytes_left
        → s.bytes_left ≡ b
        → b ≤ n
        → Fed s (feed_loop set k env n packet s)
    unfolding feed_loop
    feed_loop-from supply n s zero fine whole e fuel =
        rw (feed_loop-done n s e) (fed_end s whole e fine)
    feed_loop-from supply zero s (suc b) fine whole e fuel = absurd (omega arith)
    feed_loop-from supply (suc n) s (suc b) fine whole e fuel =
        let u = supply n s.machine fine in
        let some_left : (s.bytes_left == 0) ≡ false = ground (arith, e) in
        let next = after_round n s u in
        rw (feed_loop-round n s some_left, feed_buffer-after_round n s u whole)
          (Fed-round n s u (feed_loop set k env n packet next) whole (omega arith) (
            feed_loop-from supply n next next.bytes_left (after_round-IsFine n s u whole)
              (after_round-whole n s u whole) refl
              (omega (arith, after_round-less n s u (omega arith)))))

    -- If OpenMAX accepts every call, in each round there comes a buffer that takes data and the
    -- configuration of the pipeline ends, and `bytes_left` is the number of bytes that `p` points to, then the
    -- inner loop of `decode_thread` ends after at most that many rounds. The buffers that it hands to
    -- the decoder hold these bytes, in order and complete; each holds at least one byte and no more
    -- than it can, with the packet's time stamp and the flags of its place.
    pub feed_loop-Fed :
        (supply : (n : ℕ) (m : Machine) → IsFine m → Supplies n m) (n : ℕ) (s : Feeder)
        → IsFine s.machine
        → length s.p ≡ s.bytes_left
        → s.bytes_left ≤ n
        → Fed s (feed_loop set k env n packet s)
    feed_loop-Fed supply n s fine whole fuel =
        feed_loop-from supply n s s.bytes_left fine whole refl fuel
