-- ===== src/Output/Streams.antt =====
-- `init_output_context`: which streams the output file has.
use omxtranscode.Base.{
  Yields, ℕ, suc, ◌+◌, ltb_ℤ, pos, ◌≡◌, ◌≢◌, ◌∙◌, refl, Bool, true, false, ◌&&◌, not, Option, none,
  some, List, [], ◌∷◌, ◌==◌, if◌then◌else◌, length, length-append, arith, Outcome, ok, exits,
  blocks, fault, Bool-cases, inl, inr, map, and_then, length-map, has_flag,
}
use omxtranscode.Mux.{is_some}
use omxtranscode.Output.Described.{
  RefersTo, MadeBy, RefersTo-append, get_elem?-append_end, IsVideoOf, IsAudioOf, RefersTo-completed,
  video-IsVideoOf, audio-IsAudioOf,
}
use omxtranscode.Output.{
  AvStream, InputContext, Muxer, OutputContext, Copying, is_audio_type, new_stream, video_output,
  audio_output, copy_stream, copy_streams, complete_stream, open_output, new_context,
  init_output_context,
}
use Prim.Native.String.{String}

-- The first audio stream that is not the video stream, and the last stream with an index.
abbrev pub first_audio : (video_stream_index : ℕ) → List AvStream → Option AvStream
first_audio i [] = none
first_audio i (s ∷ streams) =
    if not (s.index == i) && is_audio_type s.codec.codec_type then some s else first_audio i streams

abbrev pub last_index : (i : ℕ) → Option AvStream → List AvStream → Option AvStream
last_index i before [] = before
last_index i before (s ∷ streams) = last_index i (if s.index == i then some s else before) streams

-- How many streams have the index.
abbrev pub count_index : (i : ℕ) → List AvStream → ℕ
count_index i [] = 0
count_index i (s ∷ streams) =
    if s.index == i then suc (count_index i streams) else count_index i streams

abbrev pub one_if_some : Option AvStream → ℕ
one_if_some none = 0
one_if_some (some s) = 1

abbrev pub or_else : Option AvStream → Option AvStream → Option AvStream
or_else none o = o
or_else (some s) o = some s

abbrev pub Makes : Muxer → Type 0
Makes av =
    (n : ℕ) (encoder : Option ℕ) → (s : AvStream) × (av.avformat_new_stream n encoder ≡ some s)

-- FFmpeg knows the format, with the flags `format_flags`, and each of its calls succeeds.
pub record Works (av : Muxer) (format_flags : ℕ) (output_filename : String) : Type 0 where
  pub guesses : av.av_guess_format "mpegts" ≡ some format_flags
  pub allocates : av.avformat_alloc_context ≡ true
  pub makes : Makes av
  pub opens : ltb_ℤ (av.avio_open output_filename) (pos 0) ≡ false

module _ (av : Muxer) (i : ℕ) where
  -- The streams so far are for the audio stream `a`, the video stream `v`, and `n` are video.
  record IsCopied (a v : Option AvStream) (n : ℕ) (s : Copying) : Type 0 where
    audio : RefersTo (MadeBy (audio_output av)) a s.streams s.audio_stream
    video : RefersTo (MadeBy (video_output av)) v s.streams s.video_stream
    copied : s.audio_copied ≡ is_some a
    number : length s.streams ≡ n + one_if_some a

  module _ (makes : Makes av) where
    video_copied :
        (input : AvStream) (a v : Option AvStream) (n : ℕ) (s : Copying)
        → (input.index == i) ≡ true
        → IsCopied a v n s
        → Yields (IsCopied a (some input) (n + 1)) (copy_stream av i input s)
    unfolding copy_stream new_stream
    video_copied input a v n s e h =
        let made = makes (length s.streams) (av.avcodec_find_encoder av.codec_id_h264) in
        rw (e, new_stream, made.1)
          (record {
            audio = RefersTo-append (MadeBy (audio_output av)) a s.streams s.audio_stream _ h.audio;
            video =
                (video_output av input made.0, get_elem?-append_end s.streams _, (made.0, refl));
            copied = h.copied;
            number =
                ground
                  (arith, h.number, length-append s.streams (video_output av input made.0 ∷ []));
          })

    audio_copied :
        (input : AvStream) (v : Option AvStream) (n : ℕ) (s : Copying)
        → (input.index == i) ≡ false
        → is_audio_type input.codec.codec_type ≡ true
        → IsCopied none v n s
        → Yields (IsCopied (some input) v n) (copy_stream av i input s)
    unfolding copy_stream new_stream
    audio_copied input v n s e t h =
        let made = makes (length s.streams) (av.avcodec_find_encoder input.codec.codec_id) in
        simp (e, t, h.copied, new_stream, made.1)
          (record {
            audio =
                (audio_output av input made.0, get_elem?-append_end s.streams _, (made.0, refl));
            video = RefersTo-append (MadeBy (video_output av)) v s.streams s.video_stream _ h.video;
            copied = refl;
            number =
                ground
                  (arith, h.number, length-append s.streams (audio_output av input made.0 ∷ []));
          })

    other_kept :
        (input : AvStream) (a v : Option AvStream) (n : ℕ) (s : Copying)
        → (input.index == i) ≡ false
        → (is_audio_type input.codec.codec_type && not (is_some a)) ≡ false
        → IsCopied a v n s
        → Yields (IsCopied a v n) (copy_stream av i input s)
    unfolding copy_stream
    other_kept input a v n s e t h = simp (e, h.copied, t) h

    and_next :
        (inputs : List AvStream) (a v a' v' : Option AvStream) (n n' : ℕ) (o : Outcome Copying)
        → Yields (IsCopied a v n) o
        → ((s : Copying)
            → IsCopied a v n s
            → Yields (IsCopied a' v' n') (copy_streams av i inputs s))
        → Yields (IsCopied a' v' n') (and_then o λ s. copy_streams av i inputs s)
    and_next inputs a v a' v' n n' (ok s) h k = k s h
    and_next inputs a v a' v' n n' (exits c) h k = h
    and_next inputs a v a' v' n n' blocks h k = h
    and_next inputs a v a' v' n n' fault h k = h

    abbrev Copies : List AvStream → Type 0
    Copies inputs =
        (a v : Option AvStream) (n : ℕ) (s : Copying)
        → IsCopied a v n s
        → Yields
            (IsCopied (or_else a (first_audio i inputs)) (last_index i v inputs)
              (n + count_index i inputs))
            (copy_streams av i inputs s)

    not_video :
        (inputs : List AvStream) (input : AvStream) (a v : Option AvStream) (n : ℕ) (s : Copying)
        → (input.index == i) ≡ false
        → IsCopied a v n s
        → Copies inputs
        → Yields
            (IsCopied
              (or_else a
                (if is_audio_type input.codec.codec_type then some input else first_audio i inputs))
              (last_index i v inputs)
              (n + count_index i inputs))
            (and_then (copy_stream av i input s) λ s'. copy_streams av i inputs s')
    not_video inputs input none v n s e h rest =
        elim (Bool-cases (is_audio_type input.codec.codec_type)) [
          | inl t ↦ rw t (
              and_next inputs (some input) v _ _ n _ _ (audio_copied input v n s e t h)
                (λ s' h'. rest (some input) v n s' h'))
          | inr t ↦ rw t (
              and_next inputs none v _ _ n _ _ (other_kept input none v n s e (rw t) h)
                (λ s' h'. rest none v n s' h'))
        ]
    not_video inputs input (some a) v n s e h rest =
        and_next inputs (some a) v _ _ n _ _ (other_kept input (some a) v n s e (ground arith) h)
          (λ s' h'. rest (some a) v n s' h')

    copy_streams-IsCopied :
        (inputs : List AvStream) (a v : Option AvStream) (n : ℕ) (s : Copying)
        → IsCopied a v n s
        → Yields
            (IsCopied
              (or_else a (first_audio i inputs))
              (last_index i v inputs)
              (n + count_index i inputs))
            (copy_streams av i inputs s)
    unfolding copy_streams
    copy_streams-IsCopied [] none v n s h = ground (arith, h)
    copy_streams-IsCopied [] (some a) v n s h = ground (arith, h)
    copy_streams-IsCopied (input ∷ inputs) a v n s h = elim (Bool-cases (input.index == i)) [
      | inl e ↦ rw e (
          and_next inputs a (some input) _ _ (n + 1) _ _ (video_copied input a v n s e h)
            (λ s' h'. grind (arith, copy_streams-IsCopied inputs a (some input) (n + 1) s' h')))
      | inr e ↦ rw e (not_video inputs input a v n s e h (copy_streams-IsCopied inputs))
    ]

-- Each stream has a sample rate.
abbrev pub AreRated : List AvStream → Type 0
AreRated [] = Unit {0}
AreRated (s ∷ streams) = (s.codec.sample_rate ≢ 0) × AreRated streams

completed-AreRated :
    (av : Muxer) (format_flags : ℕ) (streams : List AvStream)
    → AreRated (map (complete_stream av format_flags) streams)
unfolding complete_stream
completed-AreRated av ff [] = tt
completed-AreRated av ff (s ∷ streams) = (ground arith, completed-AreRated av ff streams)

-- What the output file is for an input file: its video stream, the first audio stream, and no other.
pub record IsOutput (av : Muxer) (format_flags : ℕ) (input : InputContext) (i : ℕ)
    (r : OutputContext × Option ℕ × Option ℕ) : Type 0 where
  pub audio : RefersTo (IsAudioOf av format_flags) (first_audio i input.streams) r.0.streams r.2
  pub video : RefersTo (IsVideoOf av format_flags) (last_index i none input.streams) r.0.streams r.1
  pub number :
      length r.0.streams ≡ count_index i input.streams + one_if_some (first_audio i input.streams)
  pub rated : AreRated r.0.streams
  pub file : r.0.opened ≡ not (has_flag format_flags av.avfmt_nofile)
  pub starts : r.0.start_time ≡ input.start_time
  pub format : r.0.format_flags ≡ format_flags

module _ (av : Muxer) (format_flags : ℕ) (input : InputContext) (i : ℕ) (name : String) where
  outputs :
      (s : Copying) (opened : Bool)
      → IsCopied av i
          (first_audio i input.streams)
          (last_index i none input.streams)
          (count_index i input.streams)
          s
      → opened ≡ not (has_flag format_flags av.avfmt_nofile)
      → IsOutput av format_flags input i (
        record (new_context av format_flags input name s.streams) { opened = opened },
        s.video_stream,
        s.audio_stream,
      )
  unfolding new_context
  outputs s opened h e = record {
    audio =
        RefersTo-completed av format_flags (MadeBy (audio_output av)) (IsAudioOf av format_flags)
          (audio-IsAudioOf av format_flags) (first_audio i input.streams) s.streams s.audio_stream
          h.audio;
    video =
        RefersTo-completed av format_flags (MadeBy (video_output av)) (IsVideoOf av format_flags)
          (video-IsVideoOf av format_flags) (last_index i none input.streams) s.streams
          s.video_stream h.video;
    number = length-map s.streams (complete_stream av format_flags) ∙ h.number;
    rated = completed-AreRated av format_flags s.streams;
    file = e;
    starts = refl;
    format = refl;
  }

  finished :
      Works av format_flags name
      → (o : Outcome Copying)
      → Yields
          (IsCopied av i
            (first_audio i input.streams)
            (last_index i none input.streams)
            (count_index i input.streams))
          o
      → Yields (IsOutput av format_flags input i) (
          and_then o λ s.
            and_then
              (open_output av name (new_context av format_flags input name s.streams))
              λ oc. ok (oc, s.video_stream, s.audio_stream))
  unfolding open_output new_context
  finished w (ok s) h = elim (Bool-cases (has_flag format_flags av.avfmt_nofile)) [
    | inl e ↦ rw (open_output, e) (outputs s false h (rw e))
    | inr e ↦ rw (open_output, e, w.opens) (outputs s true h (rw e))
  ]
  finished w (exits n) h = h
  finished w blocks h = h
  finished w fault h = h

  -- If FFmpeg knows the format and its calls succeed, `init_output_context` ends: the output file
  -- has a stream for the input's video stream, which the result's first pointer refers to, one for the
  -- first audio stream among the others, which the second refers to, and none else. The video
  -- stream is H.264 at 2000000 bits per second with the size and the frame rates of the input's; the
  -- audio stream has FFmpeg's copy of the input's codec context, without its tag, and of its metadata;
  -- each has a sample rate, and the file is opened unless the format needs none.
  pub init_output_context-IsOutput :
      Works av format_flags name
      → Yields (IsOutput av format_flags input i) (init_output_context av input i name)
  unfolding init_output_context
  init_output_context-IsOutput w =
      let start : Copying = record {
        streams = [];
        video_stream = none;
        audio_stream = none;
        audio_copied = false;
      } in
      let none_yet : IsCopied av i none none 0 start = record {
        audio = tt;
        video = tt;
        copied = refl;
        number = refl;
      } in
      let from_zero : 0 + count_index i input.streams ≡ count_index i input.streams = omega arith in
      simp (init_output_context, w.guesses, w.allocates)
        (finished w (copy_streams av i input.streams start) (
          rw from_zero at
            (copy_streams-IsCopied av i w.makes input.streams none none 0 start none_yet)))
