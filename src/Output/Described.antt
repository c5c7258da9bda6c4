-- ===== src/Output/Described.antt =====
-- `init_output_context`: what a stream of the output file is to one of the input file.
use omxtranscode.Base.{
  ℕ, zero, suc, ◌≡◌, refl, Option, none, some, List, [], ◌∷◌, ◌++◌, ◌==◌, if◌then◌else◌, length,
  get_elem?, map, has_flag, bit_or,
}
use omxtranscode.Demux.{media_video}
use omxtranscode.Output.{
  CodecSettings, AvStream, Muxer, video_output, audio_output, complete_stream,
}

module _ {ℓ} {A : Type ℓ} where
  pub get_elem?-append :
      (xs ys : List A) (i : ℕ) (x : A) → get_elem? xs i ≡ some x → get_elem? (xs ++ ys) i ≡ some x
  get_elem?-append [] ys i x e = cc
  get_elem?-append (x' ∷ xs) ys zero x e = e
  get_elem?-append (x' ∷ xs) ys (suc i) x e = get_elem?-append xs ys i x e

  pub get_elem?-append_end : (xs : List A) (x : A) → get_elem? (xs ++ x ∷ []) (length xs) ≡ some x
  get_elem?-append_end [] x = refl
  get_elem?-append_end (x' ∷ xs) x = get_elem?-append_end xs x

  pub get_elem?-map {κ} :
      {B : Type κ} (f : A → B) (xs : List A) (i : ℕ) (x : A)
      → get_elem? xs i ≡ some x
      → get_elem? (map f xs) i ≡ some (f x)
  get_elem?-map f [] i x e = cc
  get_elem?-map f (x' ∷ xs) zero x e = cc
  get_elem?-map f (x' ∷ xs) (suc i) x e = get_elem?-map f xs i x e

-- A pointer into the list refers to a stream that is to the input stream as `R` says; there is none
-- without an input stream.
abbrev pub RefersTo :
    (AvStream → AvStream → Type 0) → Option AvStream → List AvStream → Option ℕ → Type 0
RefersTo R none streams none = Unit {0}
RefersTo R (some input) streams (some place) =
    (output : AvStream) × (get_elem? streams place ≡ some output) × R input output
RefersTo R _ streams _ = ⊥

abbrev pub MadeBy : (AvStream → AvStream → AvStream) → AvStream → AvStream → Type 0
MadeBy make input output = (fresh : AvStream) × (output ≡ make input fresh)

pub RefersTo-append :
    (R : AvStream → AvStream → Type 0) (input : Option AvStream) (streams : List AvStream)
    (place : Option ℕ) (new : AvStream)
    → RefersTo R input streams place
    → RefersTo R input (streams ++ new ∷ []) place
RefersTo-append R none streams none new h = tt
RefersTo-append R (some input) streams (some place) new h =
    (h.0, get_elem?-append streams (new ∷ []) place _ h.1, h.2)
RefersTo-append R none streams (some place) new h = h
RefersTo-append R (some input) streams none new h = h

-- The flags and the sample rate that the second loop makes of these.
abbrev pub header_flags : Muxer → (format_flags flags : ℕ) → ℕ
header_flags av format_flags flags =
    if has_flag format_flags av.avfmt_globalheader
    then bit_or flags av.codec_flag_global_header
    else flags

abbrev pub or_48000 : ℕ → ℕ
or_48000 rate = if rate == 0 then 48000 else rate

-- The video stream of the output: H.264 with the size and the times of the input's video, and the
-- rest as in a stream that FFmpeg made.
pub record IsVideoOf (av : Muxer) (format_flags : ℕ) (input output : AvStream) : Type 0 where
  pub fresh : AvStream
  pub codec_type : output.codec.codec_type ≡ media_video
  pub codec_id : output.codec.codec_id ≡ av.codec_id_h264
  pub bit_rate : output.codec.bit_rate ≡ 2000000
  pub width : output.codec.width ≡ input.codec.width
  pub height : output.codec.height ≡ input.codec.height
  pub codec_time_base : output.codec.time_base ≡ input.codec.time_base
  pub avg_frame_rate : output.avg_frame_rate ≡ input.avg_frame_rate
  pub r_frame_rate : output.r_frame_rate ≡ input.r_frame_rate
  pub start_time : output.start_time ≡ av.nopts_value
  pub flags : output.codec.flags ≡ header_flags av format_flags fresh.codec.flags
  pub sample_rate : output.codec.sample_rate ≡ or_48000 fresh.codec.sample_rate
  pub index : output.index ≡ fresh.index
  pub time_base : output.time_base ≡ fresh.time_base

-- The audio stream of the output: with FFmpeg's copy of the input's codec context, but no tag, and of
-- its metadata, and the rest as in a stream that FFmpeg made.
pub record IsAudioOf (av : Muxer) (format_flags : ℕ) (input output : AvStream) : Type 0 where
  pub fresh : AvStream
  pub copy : CodecSettings
  pub copied : copy ≡ av.avcodec_copy_context fresh.codec input.codec
  pub codec_tag : output.codec.codec_tag ≡ 0
  pub codec_type : output.codec.codec_type ≡ copy.codec_type
  pub codec_id : output.codec.codec_id ≡ copy.codec_id
  pub bit_rate : output.codec.bit_rate ≡ copy.bit_rate
  pub codec_time_base : output.codec.time_base ≡ copy.time_base
  pub extra : output.codec.extra ≡ copy.extra
  pub flags : output.codec.flags ≡ header_flags av format_flags copy.flags
  pub sample_rate : output.codec.sample_rate ≡ or_48000 copy.sample_rate
  pub metadata : output.metadata ≡ av.av_dict_copy fresh.metadata input.metadata
  pub index : output.index ≡ fresh.index
  pub time_base : output.time_base ≡ fresh.time_base

pub RefersTo-completed :
    (av : Muxer) (format_flags : ℕ) (R Q : AvStream → AvStream → Type 0)
    → ((input output : AvStream)
        → R input output
        → Q input (complete_stream av format_flags output))
    → (input : Option AvStream) (streams : List AvStream) (place : Option ℕ)
    → RefersTo R input streams place
    → RefersTo Q input (map (complete_stream av format_flags) streams) place
RefersTo-completed av ff R Q next none streams none h = tt
RefersTo-completed av ff R Q next (some input) streams (some place) h = (
  complete_stream av ff h.0,
  get_elem?-map (complete_stream av ff) streams place _ h.1,
  next input h.0 h.2,
)
RefersTo-completed av ff R Q next none streams (some place) h = h
RefersTo-completed av ff R Q next (some input) streams none h = h

pub video-IsVideoOf :
    (av : Muxer) (format_flags : ℕ) (input output : AvStream)
    → MadeBy (video_output av) input output
    → IsVideoOf av format_flags input (complete_stream av format_flags output)
unfolding video_output complete_stream
video-IsVideoOf av ff input output h = rw h.1 (record {
  fresh = h.0;
  codec_type = refl;
  codec_id = refl;
  bit_rate = refl;
  width = refl;
  height = refl;
  codec_time_base = refl;
  avg_frame_rate = refl;
  r_frame_rate = refl;
  start_time = refl;
  flags = refl;
  sample_rate = refl;
  index = refl;
  time_base = refl;
})

pub audio-IsAudioOf :
    (av : Muxer) (format_flags : ℕ) (input output : AvStream)
    → MadeBy (audio_output av) input output
    → IsAudioOf av format_flags input (complete_stream av format_flags output)
unfolding audio_output complete_stream
audio-IsAudioOf av ff input output h = rw h.1 (record {
  fresh = h.0;
  copy = av.avcodec_copy_context h.0.codec input.codec;
  copied = refl;
  codec_tag = refl;
  codec_type = refl;
  codec_id = refl;
  bit_rate = refl;
  codec_time_base = refl;
  extra = refl;
  flags = refl;
  sample_rate = refl;
  metadata = refl;
  index = refl;
  time_base = refl;
})
