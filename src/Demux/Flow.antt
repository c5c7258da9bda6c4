-- ===== src/Demux/Flow.antt =====
-- The demultiplexer and the two consumers of its queues, in any order of their steps.
use omxtranscode.Base.{
  ℕ, ◌+◌, ◌≡◌, ◌∙◌, refl, ap, Option, none, some, List, [], ◌∷◌, ◌++◌, length, append_assoc,
}
use omxtranscode.ListApi.{ListApi}
use omxtranscode.PacketQueue.{Packet, PacketQueue, packet_queue_get_next_item_asynch, contents}
use omxtranscode.PacketQueue.Order.{unlink_first-cons, asynch-nil, asynch-cons}
use omxtranscode.Demux.{Source, Demux, extract_streams_step}
use omxtranscode.Demux.Step.{frames_due, video_due, audio_due, step-Kept}

-- Whose step it is.
pub data Turn : Type 0 where
  demux_turn video_turn audio_turn : Turn

module _ (api : ListApi Packet) (c : Source) where
  open api use {Head}

  -- The thread, and what each consumer has taken, first come first.
  pub record System : Type 0 where
    pub demux : Demux Head
    pub taken_video : List Packet
    pub taken_audio : List Packet

  abbrev pub received : Option Packet → List Packet
  received none = []
  received (some p) = p ∷ []

  unfoldable pub turn : Turn → System → System
  turn demux_turn s = record s { demux = extract_streams_step api c s.demux }
  turn video_turn s =
      let (item, rest) = packet_queue_get_next_item_asynch api s.demux.input_video_queue in
      record s {
        demux = record s.demux { input_video_queue = rest };
        taken_video = s.taken_video ++ received item;
      }
  turn audio_turn s =
      let (item, rest) = packet_queue_get_next_item_asynch api s.demux.processed_audio_queue in
      record s {
        demux = record s.demux { processed_audio_queue = rest };
        taken_audio = s.taken_audio ++ received item;
      }

  unfoldable pub play : List Turn → System → System
  play [] s = s
  play (t ∷ ts) s = play ts (turn t s)

  -- The packets of a system by queue: taken, queued, waiting and still to be read.
  abbrev pub all_video : System → List Packet
  all_video s = s.taken_video ++ video_due api c s.demux

  abbrev pub all_audio : System → List Packet
  all_audio s = s.taken_audio ++ audio_due api c s.demux

  -- Taking from a queue moves its first packet.
  taken_first :
      (q : PacketQueue Head) (ps : List Packet)
      → contents api q ≡ ps
      → let (item, rest) = packet_queue_get_next_item_asynch api q in
        received item ++ contents api rest ≡ contents api q
  taken_first q [] e = rw (asynch-nil api q e)
  taken_first q (p ∷ ps) e = rw (asynch-cons api q p ps e, (unlink_first-cons api q p ps e).1, e)

  regroup : (a b c d : List Packet) → (a ++ b) ++ (c ++ d) ≡ a ++ ((b ++ c) ++ d)
  regroup a b c d = simp append_assoc

  moved :
      (q : PacketQueue Head) (before after : List Packet)
      → let (item, rest) = packet_queue_get_next_item_asynch api q in
        (before ++ received item) ++ (contents api rest ++ after)
        ≡ before ++ (contents api q ++ after)
  moved q before after =
      regroup before _ _ after
      ∙ ap (λ l. before ++ (l ++ after)) (taken_first q (contents api q) refl)

  turn-all :
      (t : Turn) (s : System)
      → (all_video (turn t s) ≡ all_video s) × (all_audio (turn t s) ≡ all_audio s)
  unfolding turn
  turn-all demux_turn s =
      let k = step-Kept api c s.demux in
      (ap (λ l. s.taken_video ++ l) k.video, ap (λ l. s.taken_audio ++ l) k.audio)
  turn-all video_turn s = (moved s.demux.input_video_queue s.taken_video _, refl)
  turn-all audio_turn s = (refl, moved s.demux.processed_audio_queue s.taken_audio _)

  pub play-all :
      (ts : List Turn) (s : System)
      → (all_video (play ts s) ≡ all_video s) × (all_audio (play ts s) ≡ all_audio s)
  unfolding play
  play-all [] s = (refl, refl)
  play-all (t ∷ ts) s =
      let first = turn-all t s in
      let later = play-all ts (turn t s) in (later.0 ∙ first.0, later.1 ∙ first.1)

  -- The frames freed, and those that are not yet.
  abbrev pub all_frames : System → ℕ
  all_frames s = s.demux.av_freed + (frames_due s.demux.waiting + length s.demux.frames)

  turn-frames : (t : Turn) (s : System) → all_frames (turn t s) ≡ all_frames s
  unfolding turn
  turn-frames demux_turn s = (step-Kept api c s.demux).freed
  turn-frames video_turn s = refl
  turn-frames audio_turn s = refl

  pub play-frames : (ts : List Turn) (s : System) → all_frames (play ts s) ≡ all_frames s
  unfolding play
  play-frames [] s = refl
  play-frames (t ∷ ts) s = play-frames ts (turn t s) ∙ turn-frames t s
