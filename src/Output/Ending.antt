-- ===== src/Output/Ending.antt =====
-- When the loop of `writer_thread` ends.
use omxtranscode.Base.{
  ℕ, ◌≡◌, ◌≢◌, ◌↔◌, ◌⊎◌, refl, Bool, true, false, List, [], ◌∷◌, arith, Outcome, ◌||◌, ◌==◌,
  Bool-cases, and_then, Holds-map, ok, exits, blocks, fault, inl, inr, Holds, Holds-next,
  Holds-unit, Yields,
}
use omxtranscode.External.{BufferFlags}
use omxtranscode.ListApi.{ListApi}
use omxtranscode.PacketQueue.{Packet}
use omxtranscode.Omx.{Machine, Il, video_encode}
use omxtranscode.Buffer.{omx_encoder_fill_buffer_done}
use omxtranscode.Mux.{Av}
use omxtranscode.Output.{Muxer}
use omxtranscode.Output.Thread.{
  Phase, waits_running, tests, hands_output, writes_audio, writes_video, ended, OutputFile, Session,
  close_output, write_audio, write_video, hand_output, writer_step, Turn, writer_turn, encoder_turn,
  audio_turn, finish_turn, machine_turn, take_turn, run_writer,
}

abbrev pub is_ended : Phase → Bool
is_ended ended = true
is_ended _ = false

abbrev is_tests : Phase → Bool
is_tests tests = true
is_tests _ = false

-- The thread is about to test its loop, the encoder has delivered its last buffer, and the input is
-- finished.
pub record IsDue {Head : Type 0} (s : Session Head) : Type 0 where
  pub at : s.phase ≡ tests
  pub eos : (s.machine.component video_encode).eos ≢ 0
  pub finished : s.writer.processed_audio_queue.queue_finished ≢ 0

module _ (av : Av) (muxer : Muxer) (f : BufferFlags) (il : Il) (file : OutputFile)
    (api : ListApi Packet) where
  open api use {Head}

  abbrev pub Turns : Type 0
  Turns = List (Turn api av muxer f il file)

  abbrev pub IsDueAt : Turn api av muxer f il file → Session Head → Type 0
  IsDueAt (writer_turn ws) s = IsDue s
  IsDueAt t s = ⊥

  -- At one of its own turns in the run the thread is due to end.
  abbrev pub WasDue : ℕ → Turns → Session Head → Type 0
  WasDue k [] s = ⊥
  WasDue k (t ∷ ts) s = IsDueAt t s ⊎ Yields (WasDue k ts) (take_turn api av muxer f il file k t s)

  -- The thread ends in the turn just if it is due.
  abbrev EndsIf : Turn api av muxer f il file → Session Head → Session Head → Type 0
  EndsIf t s s' =
      (IsDueAt t s × (is_ended s'.phase ≡ true)) ⊎ ((IsDueAt t s → ⊥) × (is_ended s'.phase ≡ false))

  close-ended :
      (s : Session Head) → Holds (λ s'. is_ended s'.phase ≡ true) (close_output muxer file s)
  unfolding close_output
  close-ended s = grind arith

  elsewhere :
      (ws : List (Machine → Machine)) (s : Session Head) {p : Phase}
      → s.phase ≡ p
      → is_tests p ≡ false
      → (s1 : Session Head) → is_ended s1.phase ≡ false
      → EndsIf (writer_turn ws) s s1
  elsewhere ws s at other s1 going = inr ((λ due. let here = due.at in absurd (cc)), going)

  own_turn-EndsIf :
      (k : ℕ) (ws : List (Machine → Machine)) (p : Phase) (s : Session Head)
      → s.phase ≡ p
      → is_ended p ≡ false
      → Holds (EndsIf (writer_turn ws) s) (writer_step api av muxer f il file k ws p s)
  unfolding writer_step hand_output write_audio write_video
  own_turn-EndsIf k ws waits_running s at going = grind (arith, elsewhere ws s at refl)
  own_turn-EndsIf k ws tests s at going =
      elim (Bool-cases (
        ((s.machine.component video_encode).eos == 0)
        || (s.writer.processed_audio_queue.queue_finished == 0))) [
          | inl e ↦ rw e (inr ((λ due. ground (arith, e, due.eos, due.finished)), refl))
          | inr e ↦ rw e (
              Holds-map _ (EndsIf (writer_turn ws) s) (close_output muxer file s) (close-ended s)
                (λ s' e'.
                  inl (
                    record { at = at; eos = ground (arith, e); finished = ground (arith, e) },
                    e',
                  )))
        ]
  own_turn-EndsIf k ws hands_output s at going = grind (arith, elsewhere ws s at refl)
  own_turn-EndsIf k ws writes_audio s at going = grind (arith, elsewhere ws s at refl)
  own_turn-EndsIf k ws writes_video s at going = grind (arith, elsewhere ws s at refl)
  own_turn-EndsIf k ws ended s at going = absurd (cc)

  turn-EndsIf :
      (k : ℕ) (t : Turn api av muxer f il file) (s : Session Head)
      → is_ended s.phase ≡ false
      → Holds (EndsIf t s) (take_turn api av muxer f il file k t s)
  unfolding take_turn
  turn-EndsIf k (writer_turn ws) s going = own_turn-EndsIf k ws s.phase s refl going
  turn-EndsIf k (encoder_turn fresh block buf) s going =
      Holds-next (λ r. Unit {0}) (EndsIf (encoder_turn fresh block buf) s)
        (omx_encoder_fill_buffer_done api k video_encode fresh block buf
          s.writer.encoded_video_queue s.machine)
        _ (Holds-unit _) (λ r u. inr ((λ z. z), going))
  turn-EndsIf k (audio_turn p) s going = inr ((λ z. z), going)
  turn-EndsIf k finish_turn s going = inr ((λ z. z), going)
  turn-EndsIf k (machine_turn change) s going = inr ((λ z. z), going)

  by_phase :
      (k : ℕ) (ws : List (Machine → Machine)) (s : Session Head)
      → s.phase ≡ ended
      → Holds (λ s'. is_ended s'.phase ≡ true) (writer_step api av muxer f il file k ws s.phase s)
  unfolding writer_step
  by_phase k ws s at = simp at refl

  ended_turn :
      (k : ℕ) (t : Turn api av muxer f il file) (s : Session Head)
      → is_ended s.phase ≡ true
      → Holds (λ s'. is_ended s'.phase ≡ true) (take_turn api av muxer f il file k t s)
  unfolding take_turn writer_step
  ended_turn k (writer_turn ws) s e = go s.phase refl
    where
      go :
          (p : Phase)
          → s.phase ≡ p
          → Holds
              (λ s'. is_ended s'.phase ≡ true)
              (writer_step api av muxer f il file k ws s.phase s)
      go ended at = by_phase k ws s at
      go waits_running at = absurd (cc)
      go tests at = absurd (cc)
      go hands_output at = absurd (cc)
      go writes_audio at = absurd (cc)
      go writes_video at = absurd (cc)
  ended_turn k (encoder_turn fresh block buf) s e =
      Holds-next (λ r. Unit {0}) (λ (s' : Session Head). is_ended s'.phase ≡ true)
        (omx_encoder_fill_buffer_done api k video_encode fresh block buf
          s.writer.encoded_video_queue s.machine)
        _ (Holds-unit _) (λ r u. e)
  ended_turn k (audio_turn p) s e = e
  ended_turn k finish_turn s e = e
  ended_turn k (machine_turn change) s e = e

  stays_ended :
      (k : ℕ) (ts : Turns) (s : Session Head)
      → is_ended s.phase ≡ true
      → Holds (λ s'. is_ended s'.phase ≡ true) (run_writer api av muxer f il file k ts s)
  unfolding run_writer
  stays_ended k [] s e = e
  stays_ended k (t ∷ ts) s e =
      Holds-next _ (λ (s' : Session Head). is_ended s'.phase ≡ true)
        (take_turn api av muxer f il file k t s) _ (ended_turn k t s e)
        (λ s1 e1. stays_ended k ts s1 e1)

  either_way :
      (t : Turn api av muxer f il file) (s s' : Session Head) {W : Type 0}
      → (IsDueAt t s → ⊥)
      → ((is_ended s'.phase ≡ true) ↔ W)
      → (is_ended s'.phase ≡ true) ↔ (IsDueAt t s ⊎ W)
  either_way t s s' {W = W} never h = ((λ e. inr (h.0 e)), back)
    where
      back : IsDueAt t s ⊎ W → is_ended s'.phase ≡ true
      back (inl due) = absurd (never due)
      back (inr w) = h.1 w

  ends_next :
      (k : ℕ) (t : Turn api av muxer f il file) (ts : Turns) (s : Session Head)
      (o : Outcome (Session Head))
      → Holds (EndsIf t s) o
      → ((s1 : Session Head)
          → is_ended s1.phase ≡ false
          → Holds
              (λ s'. (is_ended s'.phase ≡ true) ↔ WasDue k ts s1)
              (run_writer api av muxer f il file k ts s1))
      → Holds
          (λ s'. (is_ended s'.phase ≡ true) ↔ (IsDueAt t s ⊎ Yields (WasDue k ts) o))
          (and_then o (λ s1. run_writer api av muxer f il file k ts s1))
  ends_next k t ts s (ok s1) (inl (due, e)) later =
      Holds-map _ _ (run_writer api av muxer f il file k ts s1) (stays_ended k ts s1 e)
        (λ s' e'. ((λ z. inl due), (λ z. e')))
  ends_next k t ts s (ok s1) (inr (never, going)) later =
      Holds-map _ _ (run_writer api av muxer f il file k ts s1) (later s1 going)
        (λ s' h. either_way t s s' never h)
  ends_next k t ts s (exits n) h later = tt
  ends_next k t ts s blocks h later = tt
  ends_next k t ts s fault h later = tt

  -- Whatever the order of the writer's steps, the encoder's callbacks and what the other threads do:
  -- behind a run that does not fail, a thread that had not ended before has ended just if at one of
  -- its own turns in the run it was about to test its loop, with the encoder's last buffer delivered
  -- and the input finished. It does not matter how many packets are queued.
  pub run_writer-WasDue :
      (k : ℕ) (ts : Turns) (s : Session Head)
      → is_ended s.phase ≡ false
      → Holds
          (λ s'. (is_ended s'.phase ≡ true) ↔ WasDue k ts s)
          (run_writer api av muxer f il file k ts s)
  unfolding run_writer
  run_writer-WasDue k [] s going = ((λ e. cc), λ z. absurd z)
  run_writer-WasDue k (t ∷ ts) s going =
      ends_next k t ts s (take_turn api av muxer f il file k t s) (turn-EndsIf k t s going)
        (λ s1 going1. run_writer-WasDue k ts s1 going1)
