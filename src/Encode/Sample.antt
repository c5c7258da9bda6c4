-- ===== src/Encode/Sample.antt =====
-- A decoder with one input buffer of three bytes, which OpenMAX empties in each wait.
use omxtranscode.Base.{
  ℕ, ◌≡◌, ◌∙◌, ◌≢◌, refl, sym, ap, true, false, none, some, List, [], ◌∷◌, arith, ◌==◌,
  if◌then◌else◌, length, Bool-cases, inl, inr, ok,
}
use omxtranscode.PacketQueue.{Packet}
use omxtranscode.PacketQueue.Plain.{packet}
use omxtranscode.Omx.{
  BufferHeader, Heap, Part, video_decode, image_fx, video_encode, Machine, empty_this_buffer,
}
use omxtranscode.Omx.Sample.{flags, commands, header, machine, willing}
use omxtranscode.Buffer.{write, omx_empty_buffer_done, omx_get_next_input_buffer}
use omxtranscode.Buffer.Chain.{write_self}
use omxtranscode.Buffer.Input.{at_wait, next_input-first, next_input-woken}
use omxtranscode.Encode.{configure_pipeline, Feeder, Setting}
use omxtranscode.Encode.Feed.{HasRoomOf, IsQuiet, configure-quiet, Supplies}

abbrev pub one_buffer : Heap
one_buffer a = if a == 10 then some (header 0 0) else none

-- OpenMAX empties the buffer.
abbrev pub empties : Machine → Machine
empties m = omx_empty_buffer_done video_decode (record m { heap = one_buffer })

abbrev pub env : ℕ → List (Machine → Machine)
env n = empties ∷ []

abbrev pub setting : Setting
setting = record {
  buffer_flags = flags;
  commands = commands;
  av_pkt_flag_key = 1;
  il = willing;
  encoder_output = record { is_input = false };
  encoder_buffers = [];
}

-- The one buffer is the decoder's input list.
pub record IsSingle (m : Machine) : Type 0 where
  pub header : BufferHeader
  pub held : m.heap 10 ≡ some header
  pub end : header.p_app_private ≡ 0
  pub room : header.n_alloc_len ≡ 3
  pub sized : length header.p_buffer ≡ 3
  pub list : (m.component video_decode).in_buffers ≡ 10
  pub quiet : IsQuiet m

module _ (m : Machine) where
  woken : Machine
  woken = empties (at_wait 3 video_decode true m)

  woken-heap : woken.heap ≡ one_buffer
  unfolding woken omx_empty_buffer_done
  woken-heap = ground arith

  woken-list : (woken.component video_decode).in_buffers ≡ (m.component video_decode).in_buffers
  unfolding woken omx_empty_buffer_done
  woken-list = ground arith

  woken-settings :
      (p : Part) → (woken.component p).port_settings_changed ≡ (m.component p).port_settings_changed
  unfolding woken omx_empty_buffer_done
  woken-settings video_decode = ground arith
  woken-settings image_fx = ground arith
  woken-settings video_encode = ground arith

  woken-IsQuiet : IsQuiet m → IsQuiet woken
  woken-IsQuiet q = record {
    decoder = rw (woken-settings video_decode) q.decoder;
    deinterlacer = rw (woken-settings image_fx) q.deinterlacer;
    encoder = rw (woken-settings video_encode) q.encoder;
  }

-- With the buffer filled.
abbrev filled : Machine → BufferHeader → Machine
filled m b = record m { heap = write m.heap 10 (some b) }

quiet_end :
    (m : Machine)
    → IsQuiet m
    → (b : BufferHeader) → configure_pipeline setting (filled m b) ≡ ok (tt, filled m b)
quiet_end m q b =
    configure-quiet setting 3 env IsSingle (filled m b)
      (record { decoder = q.decoder; deinterlacer = q.deinterlacer; encoder = q.encoder })

-- After the buffer has been filled.
again :
    (after : Machine) (held_header : BufferHeader)
    → held_header.p_app_private ≡ 0
    → held_header.n_alloc_len ≡ 3
    → length held_header.p_buffer ≡ 3
    → (after.component video_decode).in_buffers ≡ 10
    → IsQuiet after
    → (b : BufferHeader) → HasRoomOf held_header b
    → IsSingle (record after {
      heap = write after.heap 10 (some b);
      log = empty_this_buffer (after.component video_decode).h 10 ∷ after.log;
    })
again after held_header end room sized list quiet b r = record {
  header = b;
  held = write_self after.heap 10 (some b);
  end = r.same_next ∙ end;
  room = r.same_room ∙ room;
  sized = r.same_size ∙ sized;
  list = list;
  quiet = record {
    decoder = quiet.decoder;
    deinterlacer = quiet.deinterlacer;
    encoder = quiet.encoder;
  };
}

got_woken :
    (m : Machine) (s : IsSingle m)
    → s.header.n_filled_len ≢ 0
    → omx_get_next_input_buffer 3 video_decode (empties ∷ []) m ≡ ok (10, woken m)
unfolding woken
got_woken m s filled =
    next_input-woken 3 video_decode [] m [] 10 (header 0 0) [] one_buffer
      (record {
        buffers = 10 ∷ [];
        chain = (s.list, omega arith, (s.header, s.held, s.end));
        filled = ((s.header, s.held, filled), tt);
        fuel = omega arith;
      })
      (s.list, omega arith, (header 0 0, refl, refl)) tt refl refl (omega arith)

pub supply : (n : ℕ) (m : Machine) → IsSingle m → Supplies setting 3 env IsSingle n m
supply n m s = elim (Bool-cases (s.header.n_filled_len == 0)) [
  | inl e ↦ record {
    buffer = 10;
    after = m;
    header = s.header;
    got =
        next_input-first 3 video_decode [] (env n) m [] 10 s.header [] tt refl
          (s.list, omega arith, (s.header, s.held, s.end)) tt s.held (ground arith) (omega arith);
    some_buffer = omega arith;
    held = s.held;
    room = omega (arith, s.room);
    sized = s.sized ∙ sym s.room;
    later = filled m;
    configured = quiet_end m s.quiet;
    later_held = λ b. write_self m.heap 10 (some b);
    again = again m s.header s.end s.room s.sized s.list s.quiet;
  }
  | inr e ↦ record {
    buffer = 10;
    after = woken m;
    header = header 0 0;
    got = got_woken m s (ground arith);
    some_buffer = omega arith;
    held = ap (λ (h : Heap). h 10) (woken-heap m);
    room = omega arith;
    sized = refl;
    later = filled (woken m);
    configured = quiet_end (woken m) (woken-IsQuiet m s.quiet);
    later_held = λ b. write_self (woken m).heap 10 (some b);
    again =
        again (woken m) (header 0 0) refl refl refl (woken-list m ∙ s.list)
          (woken-IsQuiet m s.quiet);
  }
]

-- Five bytes, a key frame.
abbrev pub key_packet : Packet
key_packet = record (packet 1) { bytes = 1 ∷ 2 ∷ 3 ∷ 4 ∷ 5 ∷ []; data_length = 5; flags = 1 }

abbrev pub start : Feeder
start = record {
  machine = record (machine []) { heap = one_buffer };
  p = key_packet.bytes;
  bytes_left = 5;
  first_packet = 1;
  sent = [];
}

pub start-IsSingle : IsSingle start.machine
start-IsSingle = record {
  header = header 0 0;
  held = refl;
  end = refl;
  room = refl;
  sized = refl;
  list = refl;
  quiet = record { decoder = refl; deinterlacer = refl; encoder = refl };
}
