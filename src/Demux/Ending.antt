-- ===== src/Demux/Ending.antt =====
-- How many rounds `extract_streams` takes while both consumers take their turns.
use omxtranscode.Base.{
  ℕ, zero, suc, ◌+◌, ◌-◌, ◌*◌, ◌≤◌, ◌≡◌, refl, Bool, true, false, List, [], ◌∷◌, arith, length,
  if◌then◌else◌, pos, ltb_ℤ,
}
use omxtranscode.ListApi.{ListApi}
use omxtranscode.PacketQueue.{Packet}
use omxtranscode.Demux.{
  Frame, Source, Waiting, nothing, to_video, to_audio, route, Demux, after_read, read_frame,
  queue_packet, extract_streams_step,
}
use omxtranscode.Demux.Step.{frames_due}
use omxtranscode.Demux.Flow.{Turn, demux_turn, video_turn, audio_turn, System, turn, play}
use omxtranscode.Demux.Bounds.{AreShort, turn-AreShort, taken-room}

module _ (api : ListApi Packet) (c : Source) where
  open api use {Head}

  -- The steps that the thread has left.
  abbrev pub left : Demux Head → ℕ
  left d = if d.ended then 0 else suc (frames_due d.waiting + 2 * length d.frames)

  after_read-left :
      (w : Waiting) (d : Demux Head)
      → d.waiting ≡ nothing
      → d.ended ≡ false
      → left (after_read api c w d) ≤ 2 + 2 * length d.frames
  unfolding after_read
  after_read-left nothing d e running = rw (running, e) (omega arith)
  after_read-left (to_video p) d e running = rw running (omega arith)
  after_read-left (to_audio p) d e running = rw running (omega arith)

  read_frame-left :
      (l : List (Frame × Packet)) (d : Demux Head)
      → d.waiting ≡ nothing
      → d.ended ≡ false
      → left (read_frame api c l d) ≤ 2 * length l
  unfolding read_frame
  read_frame-left [] d e running = omega arith
  read_frame-left ((frame, fresh) ∷ frames) d e running =
      omega (arith, after_read-left (route c frame fresh) (record d { frames = frames }) e running)

  -- Neither queue is full.
  record HasRoom (d : Demux Head) : Type 0 where
    video : ltb_ℤ (pos 100) d.input_video_queue.queue_count ≡ false
    audio : ltb_ℤ (pos 100) d.processed_audio_queue.queue_count ≡ false

  queue_packet-left :
      (w : Waiting) (d : Demux Head)
      → d.waiting ≡ w
      → HasRoom d
      → d.ended ≡ false
      → left (queue_packet api c w d) ≤ frames_due w + 2 * length d.frames
  unfolding queue_packet
  queue_packet-left nothing d e r running = omega (arith, read_frame-left d.frames d e running)
  queue_packet-left (to_video p) d e r running = rw (r.video, running) (omega arith)
  queue_packet-left (to_audio p) d e r running = rw (r.audio, running) (omega arith)

  step-left : (d : Demux Head) → HasRoom d → left (extract_streams_step api c d) ≤ left d - 1
  unfolding extract_streams_step
  step-left d r = by_end d.ended refl
    where
      by_end :
          (b : Bool)
          → d.ended ≡ b
          → left (if b then d else queue_packet api c d.waiting d) ≤ left d - 1
      by_end true e = ground (arith, e)
      by_end false e = ground (arith, e, queue_packet-left d.waiting d refl r e)

  -- In a round each consumer takes a turn, and then the thread.
  abbrev pub rounds : ℕ → List Turn
  rounds zero = []
  rounds (suc n) = video_turn ∷ audio_turn ∷ demux_turn ∷ rounds n

  after_round : System api c → System api c
  after_round s = turn api c demux_turn (turn api c audio_turn (turn api c video_turn s))

  round-left :
      (s : System api c) → AreShort api c s.demux → left (after_round s).demux ≤ left s.demux - 1
  unfolding after_round turn
  round-left s h = step-left _ (record {
    video = taken-room api c s.demux.input_video_queue _ refl h.video;
    audio = taken-room api c s.demux.processed_audio_queue _ refl h.audio;
  })

  round-AreShort :
      (s : System api c) → AreShort api c s.demux → AreShort api c (after_round s).demux
  unfolding after_round
  round-AreShort s h =
      turn-AreShort api c demux_turn _
        (turn-AreShort api c audio_turn _ (turn-AreShort api c video_turn s h))

  rounds-left :
      (n : ℕ) (s : System api c)
      → AreShort api c s.demux
      → left (play api c (rounds n) s).demux ≤ left s.demux - n
  unfolding play after_round
  rounds-left zero s h = omega arith
  rounds-left (suc n) s h =
      omega (arith, rounds-left n (after_round s) (round-AreShort s h), round-left s h)

  none_left : (d : Demux Head) → left d ≤ 0 → d.ended ≡ true
  none_left d h = ground arith

  -- From a state in which both queues have a right `queue_count` and at most 101 packets:
  -- `extract_streams` has ended after twice as many rounds as frames are left to read, and two
  -- more, in each of which both consumers and then the thread take a turn.
  pub rounds-ended :
      (s : System api c)
      → AreShort api c s.demux
      → (play api c (rounds (2 * length s.demux.frames + 2)) s).demux.ended ≡ true
  rounds-ended s h =
      none_left (play api c (rounds (2 * length s.demux.frames + 2)) s).demux
        (ground (arith, rounds-left (2 * length s.demux.frames + 2) s h))
