-- ===== src/Output/Start.antt =====
-- The start of `writer_thread`, up to its wait for the encoder.
use omxtranscode.Base.{
  ℕ, zero, suc, ◌+◌, ◌<◌, ◌≡◌, ◌∙◌, refl, sym, ap, not, Option, none, some, List, [], ◌∷◌, arith,
  map, length, get_elem?, has_flag, Yields, Yields-next,
}
use omxtranscode.PacketQueue.{PacketQueue}
use omxtranscode.Omx.{Machine}
use omxtranscode.Mux.{Av, Rational}
use omxtranscode.Output.{AvStream, InputContext, Muxer, init_output_context}
use omxtranscode.Output.Described.{get_elem?-map, RefersTo}
use omxtranscode.Output.Streams.{
  first_audio, last_index, count_index, Works, IsOutput, init_output_context-IsOutput,
}
use omxtranscode.Output.Thread.{
  with_header, time_base_of, waits_running, OutputFile, Session, start_writer,
}
use omxtranscode.Output.Closing.{IsWhole, AreCalled}
use Prim.Native.String.{String}

-- The stream at the place has the time base `t`, which the header gave it.
pub record TimeBaseAt (muxer : Muxer) (streams : List AvStream) (place : ℕ) (t : Rational)
    : Type 0 where
  pub made : AvStream
  pub found :
      get_elem? streams place ≡ some (record made { time_base = muxer.avformat_write_header made })
  pub same : t ≡ muxer.avformat_write_header made

-- The thread waits for the encoder, with the header written to an output file of both streams.
pub record IsStarted (muxer : Muxer) {Head : Type 0} (r : OutputFile × Session Head) : Type 0 where
  pub video : ℕ
  pub audio : ℕ
  pub whole : IsWhole muxer r.0 video audio
  pub waits : r.1.phase ≡ waits_running
  pub called : AreCalled muxer r.0 video audio r.1
  pub nothing_written : r.1.writer.written ≡ []
  pub video_times : TimeBaseAt muxer r.0.output_context.streams video r.0.streams.video_time_base
  pub audio_times : TimeBaseAt muxer r.0.output_context.streams audio r.0.streams.audio_time_base

time_base-TimeBaseAt :
    (muxer : Muxer) (streams : List AvStream) (place : Option ℕ) (n : ℕ) (made : AvStream)
    → place ≡ some n
    → get_elem? streams n ≡ some made
    → let behind = map (with_header muxer) streams in
      TimeBaseAt muxer behind n (time_base_of behind place)
unfolding time_base_of with_header
time_base-TimeBaseAt muxer streams place n made e found =
    let at = get_elem?-map (with_header muxer) streams n made found in
    record { made = made; found = at; same = rw (e, time_base_of, at) }

some_place :
    (R : AvStream → AvStream → Type 0) (input : Option AvStream) (s : AvStream)
    (streams : List AvStream) (place : Option ℕ)
    → input ≡ some s
    → RefersTo R input streams place
    → (n : ℕ) × (place ≡ some n) × (made : AvStream) × (get_elem? streams n ≡ some made)
some_place R (some input) s streams (some n) e h = (n, refl, h.0, h.1)
some_place R (some input) s streams none e h = absurd h
some_place R none s streams place e h = absurd (cc)

get_elem?-lt :
    (streams : List AvStream) (i : ℕ)
    → i < length streams
    → (s : AvStream) × (get_elem? streams i ≡ some s)
get_elem?-lt [] i h = absurd (omega arith)
get_elem?-lt (s ∷ streams) zero h = (s, refl)
get_elem?-lt (s ∷ streams) (suc i) h = get_elem?-lt streams i (omega arith)

module _ (av : Av) (muxer : Muxer) (format_flags : ℕ) (input : InputContext) (i : ℕ)
    (name : String) where
  -- If FFmpeg's calls succeed, the input file has a video stream with the index that the writer reads
  -- and an audio stream, and that index is also one of the output streams: `writer_thread` gets to its
  -- wait for the encoder with no frame written, the header as the only call on the file, and an output
  -- file of both streams that is open unless its format needs no file; for both streams it has the time
  -- base that the header gave them.
  pub start_writer-IsStarted :
      {Head : Type 0} (omx_base audio_base : Rational) (m : Machine)
      (encoded audio : PacketQueue Head) (v a : AvStream)
      → Works muxer format_flags name
      → last_index i none input.streams ≡ some v
      → first_audio i input.streams ≡ some a
      → i < count_index i input.streams + 1
      → Yields
          (IsStarted muxer)
          (start_writer av muxer input i name omx_base audio_base m encoded audio)
  unfolding start_writer
  start_writer-IsStarted omx_base audio_base m encoded audio v a works has_video has_audio short =
      Yields-next (IsOutput muxer format_flags input i) (IsStarted muxer)
        (init_output_context muxer input i name) _
        (init_output_context-IsOutput muxer format_flags input i name works)
        λ r out.
          let at = get_elem?-lt r.0.streams i (ground (arith, out.number, has_audio)) in
          let v' = some_place _ _ v r.0.streams r.1 has_video out.video in
          let a' = some_place _ _ a r.0.streams r.2 has_audio out.audio in
          rw at.1 (record {
            video = v'.0;
            audio = a'.0;
            whole = record {
              has_video = v'.1;
              has_audio = a'.1;
              is_open = out.file ∙ ap (λ n. not (has_flag n muxer.avfmt_nofile)) (sym out.format);
            };
            waits = refl;
            called = refl;
            nothing_written = refl;
            video_times = time_base-TimeBaseAt muxer r.0.streams r.1 v'.0 v'.2 v'.1 v'.3;
            audio_times = time_base-TimeBaseAt muxer r.0.streams r.2 a'.0 a'.2 a'.1 a'.3;
          })
