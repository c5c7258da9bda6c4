-- ===== src/Demux/Bounds.antt =====
-- The back-pressure of the demultiplexer: `queue_count` of both queues.
use omxtranscode.Base.{
  suc, ◌≤◌, ◌≡◌, refl, Bool, true, false, some, List, [], ◌∷◌, arith, length, length-append,
  Bool-cases, inl, inr, if◌then◌else◌, pos, ltb_ℤ,
}
use omxtranscode.ListApi.{ListApi}
use omxtranscode.PacketQueue.{
  Packet, PacketQueue, packet_queue_add_item, packet_queue_get_next_item_asynch, contents,
  IsCounted,
}
use omxtranscode.PacketQueue.Order.{
  add_item-contents, add_item-IsCounted, unlink_first-cons, unlink_first-IsCounted, asynch-nil,
  asynch-cons,
}
use omxtranscode.Demux.{
  Frame, Source, Waiting, nothing, to_video, to_audio, route, Demux, after_read, read_frame,
  queue_packet, extract_streams_step,
}
use omxtranscode.Demux.Flow.{Turn, demux_turn, video_turn, audio_turn, System, turn, play}

module _ (api : ListApi Packet) (c : Source) where
  open api use {Head}

  -- The count is right, and at most 101.
  pub record IsShort (q : PacketQueue Head) : Type 0 where
    pub counted : IsCounted api q
    pub short : length (contents api q) ≤ 101

  pub record AreShort (d : Demux Head) : Type 0 where
    pub video : IsShort d.input_video_queue
    pub audio : IsShort d.processed_audio_queue

  add_item-IsShort :
      (q : PacketQueue Head) (p : Packet)
      → ltb_ℤ (pos 100) q.queue_count ≡ false
      → IsShort q
      → IsShort (packet_queue_add_item api q (some p)).0
  add_item-IsShort q p room s = record {
    counted = add_item-IsCounted api q (some p) s.counted;
    short =
        rw (add_item-contents api q p)
          (ground (arith, s.counted, length-append (contents api q) (p ∷ [])));
  }

  marked-IsShort : (q : PacketQueue Head) → IsShort q → IsShort (record q { queue_finished = 1 })
  marked-IsShort q s = record { counted = s.counted; short = s.short }

  after_read-AreShort :
      (w : Waiting) (d : Demux Head) → AreShort d → AreShort (after_read api c w d)
  unfolding after_read
  after_read-AreShort nothing d s = record { video = s.video; audio = s.audio }
  after_read-AreShort (to_video p) d s = record { video = s.video; audio = s.audio }
  after_read-AreShort (to_audio p) d s = record { video = s.video; audio = s.audio }

  read_frame-AreShort :
      (l : List (Frame × Packet)) (d : Demux Head) → AreShort d → AreShort (read_frame api c l d)
  unfolding read_frame
  read_frame-AreShort [] d s = record {
    video = marked-IsShort d.input_video_queue s.video;
    audio = marked-IsShort d.processed_audio_queue s.audio;
  }
  read_frame-AreShort ((frame, fresh) ∷ frames) d s =
      after_read-AreShort (route c frame fresh) (record d { frames = frames })
        (record { video = s.video; audio = s.audio })

  queue_packet-AreShort :
      (w : Waiting) (d : Demux Head) → AreShort d → AreShort (queue_packet api c w d)
  unfolding queue_packet
  queue_packet-AreShort nothing d s = read_frame-AreShort d.frames d s
  queue_packet-AreShort (to_video p) d s =
      elim (Bool-cases (ltb_ℤ (pos 100) d.input_video_queue.queue_count)) [
        | inl full ↦ rw full s
        | inr room ↦ rw room (record {
          video = add_item-IsShort d.input_video_queue p room s.video;
          audio = s.audio;
        })
      ]
  queue_packet-AreShort (to_audio p) d s =
      elim (Bool-cases (ltb_ℤ (pos 100) d.processed_audio_queue.queue_count)) [
        | inl full ↦ rw full s
        | inr room ↦ rw room (record {
          video = s.video;
          audio = add_item-IsShort d.processed_audio_queue p room s.audio;
        })
      ]

  AreShort-if :
      (d d' : Demux Head) (b : Bool) → AreShort d → AreShort d' → AreShort (if b then d else d')
  AreShort-if d d' true h h' = h
  AreShort-if d d' false h h' = h'

  step-AreShort : (d : Demux Head) → AreShort d → AreShort (extract_streams_step api c d)
  unfolding extract_streams_step
  step-AreShort d s = AreShort-if d _ d.ended s (queue_packet-AreShort d.waiting d s)

  taken-IsShort :
      (q : PacketQueue Head) (ps : List Packet)
      → contents api q ≡ ps
      → IsShort q
      → IsShort (packet_queue_get_next_item_asynch api q).1
  taken-IsShort q [] e s = rw (asynch-nil api q e) s
  taken-IsShort q (p ∷ ps) e s = rw (asynch-cons api q p ps e) (record {
    counted = unlink_first-IsCounted api q p ps e s.counted;
    short = ground (arith, (unlink_first-cons api q p ps e).1, e, s.short);
  })

  pub turn-AreShort :
      (t : Turn) (s : System api c) → AreShort s.demux → AreShort (turn api c t s).demux
  unfolding turn
  turn-AreShort demux_turn s h = step-AreShort s.demux h
  turn-AreShort video_turn s h = record {
    video = taken-IsShort s.demux.input_video_queue _ refl h.video;
    audio = h.audio;
  }
  turn-AreShort audio_turn s h = record {
    video = h.video;
    audio = taken-IsShort s.demux.processed_audio_queue _ refl h.audio;
  }

  -- There is room after a consumer's turn.
  pub taken-room :
      (q : PacketQueue Head) (ps : List Packet)
      → contents api q ≡ ps
      → IsShort q
      → ltb_ℤ (pos 100) (packet_queue_get_next_item_asynch api q).1.queue_count ≡ false
  taken-room q [] e s = rw (asynch-nil api q e) (ground (arith, s.counted, e))
  taken-room q (p ∷ ps) e s =
      let length_rest : suc (length ps) ≤ 101 = ground (arith, s.short, e) in
      rw (asynch-cons api q p ps e) (
        ground (
          arith,
          unlink_first-IsCounted api q p ps e s.counted,
          (unlink_first-cons api q p ps e).1,
          length_rest,
        ))

  -- From a state in which both queues have a right `queue_count` and at most 101 packets: so it
  -- stays in every order of the steps of the demultiplexer and the two consumers.
  pub play-AreShort :
      (ts : List Turn) (s : System api c) → AreShort s.demux → AreShort (play api c ts s).demux
  unfolding play
  play-AreShort [] s h = h
  play-AreShort (t ∷ ts) s h = play-AreShort ts (turn api c t s) (turn-AreShort t s h)
