-- ===== src/Buffer/Tests.antt =====
-- Runs on two input and two output buffers, and the theorems there.
use omxtranscode.Base.{false, ◌≡◌, refl, true, false, none, some, [], ◌∷◌, arith, ok, to_i64}
use omxtranscode.PacketQueue.Plain.{plain, packet, queue_of}
use omxtranscode.Ticks.{omx_to_pts}
use omxtranscode.Omx.{Heap, video_decode, video_encode, Machine}
use omxtranscode.Omx.Sample.{heap, header, machine}
use omxtranscode.Buffer.Race.{
  Race, retries, in_wait, idle, RaceReach, here, next, change, locks, passes, misses, empties,
  reads_one, clears, waits, lost-raced,
}
use omxtranscode.Buffer.{
  write, load, find_last, append_after, set_next, mark_out_notempty, return_buffer,
  omx_get_next_input_buffer, omx_get_next_output_buffer, omx_get_free_buffer_count,
  omx_encoder_fill_buffer_done,
}
use omxtranscode.Buffer.Chain.{Chain}
use omxtranscode.Buffer.Input.{next_input-first}
use omxtranscode.Buffer.Output.{IsOutput, Returned, next_output-last}
use omxtranscode.Buffer.Done.{
  GivenBack, Queued, return_buffer-Given, return-next_output, encoder_fill_buffer_done-Queued,
}
use omxtranscode.Buffer.Count.{free_buffer_count-free}

abbrev start : Machine
start = machine []

inputs : Chain heap 10 (10 ∷ 20 ∷ [])
inputs = (refl, omega arith, (header 3 20, refl, (refl, omega arith, (header 0 0, refl, refl))))

outputs : IsOutput video_encode start (30 ∷ 40 ∷ [])
outputs = record {
  chain = (refl, omega arith, (header 0 40, refl, (refl, omega arith, (header 0 0, refl, refl))));
  distinct = (refl, (refl, tt));
}

next_input-first_example : omx_get_next_input_buffer 3 video_decode [] start ≡ ok (20, start)
next_input-first_example =
    next_input-first 3 video_decode [] [] start (10 ∷ []) 20 (header 0 0) [] tt refl inputs
      ((header 3 20, refl, omega arith), tt) refl refl (omega arith)

-- Both buffers hold data until OpenMAX empties the first.
abbrev full : Heap
full a = elim (heap a) [ none ↦ none | some b ↦ some (record b { n_filled_len = 3 }) ]

abbrev emptied : Heap
emptied a = elim (heap a) [ none ↦ none | some b ↦ some (record b { n_filled_len = 0 }) ]

next_output-last_example :
    Returned video_encode start (30 ∷ []) 40 (omx_get_next_output_buffer 3 video_encode [] start)
next_output-last_example =
    next_output-last 3 video_encode [] [] start (30 ∷ []) 40 tt (omega arith) outputs (omega arith)

return_buffer-Given_example :
    GivenBack video_encode start (30 ∷ 40 ∷ []) 50 (return_buffer 4 video_encode 50 start)
return_buffer-Given_example =
    return_buffer-Given 4 video_encode start (30 ∷ 40 ∷ []) 50 (header 2 0) outputs refl
      (omega arith) refl (omega arith)

-- The machine after the buffer at 50 has been given back.
abbrev given : Machine
given = record start {
  heap =
      write (write (write heap 50 (some (header 0 0))) 40 (some (header 0 50))) 50
        (some (header 0 0));
}

return-next_output_example :
    Returned video_encode given
      (30 ∷ 40 ∷ [])
      50
      (omx_get_next_output_buffer 4 video_encode [] given)
unfolding return_buffer write load find_last append_after set_next mark_out_notempty
return-next_output_example =
    return-next_output 4 video_encode [] start given (30 ∷ 40 ∷ []) 50 (header 2 0) outputs refl
      (omega arith) refl (omega arith) refl

encoder_fill_buffer_done-Queued_example :
    Queued plain video_encode
      (queue_of [])
      start
      (30 ∷ 40 ∷ [])
      50
      (record (packet 1) {
        payload = 90;
        bytes = 7 ∷ 8 ∷ [];
        data_length = 2;
        flags = 0;
        pts = to_i64 (omx_to_pts (record { n_low_part = 5; n_high_part = 0 }));
      })
      (omx_encoder_fill_buffer_done plain 4 video_encode (packet 1) 90 50 (queue_of []) start)
encoder_fill_buffer_done-Queued_example =
    encoder_fill_buffer_done-Queued plain 4 video_encode (packet 1) 90 (queue_of []) start
      (30 ∷ 40 ∷ []) 50 (header 2 0) outputs refl (omega arith) refl (omega arith)

free_buffer_count-free_example : omx_get_free_buffer_count 3 video_decode start ≡ ok 1
free_buffer_count-free_example =
    free_buffer_count-free 3 video_decode start (10 ∷ 20 ∷ []) inputs (omega arith)

-- One buffer, which holds data, and the flag is still 1.
abbrev race : Race
race = record {
  count = 1;
  is_empty = λ place. false;
  buf_in_notempty = 1;
  reader = retries;
  callback = idle;
  raced = false;
}

abbrev lost : Race
lost = record race {
  is_empty = change 0 true (λ place. false);
  buf_in_notempty = 0;
  reader = in_wait;
  raced = true;
}

-- The reader passes the buffer; the buffer is emptied, and the callback reads 1; the reader gets to the
-- end of the list, clears the flag and waits.
lost_run : RaceReach race lost
lost_run =
    let passed = next (next here (locks race refl)) (passes _ 0 refl (omega arith) refl) in
    let told = next (next passed (empties _ 0 refl)) (reads_one _ refl (omega arith)) in
    next (next (next told (misses _ refl)) (clears _ refl)) (waits _ refl refl)

lost-raced_example : lost.raced ≡ true
lost-raced_example = lost-raced race lost 0 refl lost_run (record {
  asleep = refl;
  cleared = refl;
  in_list = omega arith;
  empty = refl;
  no_callback = refl;
})
