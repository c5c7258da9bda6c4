-- ===== src/Encode/Tests.antt =====
-- A decoder with one input buffer, and the theorems there.
use omxtranscode.Base.{
  inl, zero, suc, blocks, ◌-ℤ◌, ◌+ℤ◌, has_flag, not, ℕ, ◌≡◌, ◌∙◌, refl, ap, true, none, some, List,
  [], ◌∷◌, arith, ◌==◌, length, Yields,
}
use omxtranscode.PacketQueue.{Ptr, Packet}
use omxtranscode.PacketQueue.Plain.{plain, packet, queue_of}
use omxtranscode.PacketQueue.{PacketQueue, packet_queue_add_item, unlink_first}
use omxtranscode.External.{AreBits}
use omxtranscode.Encode.Flags.{input_flags-read}
use omxtranscode.Omx.{BufferHeader, Component, Delivery, Machine}
use omxtranscode.Omx.Sample.{flags, commands, header, machine, willing}
use omxtranscode.Encode.{input_flags, feed_loop, Decoder, decode_loop, has_more}
use omxtranscode.Encode.Arrivals.{Feeds, decode_loop-blocks}
use omxtranscode.Encode.Stream.{Decodes, decode_loop-Decodes}
use omxtranscode.Pipeline.Setup.{awaited, IsSetUp}
use omxtranscode.Encode.Thread.{SetUp, Shared, IsDecoded, decode_thread, decode_thread-IsDecoded}
use omxtranscode.Omx.Sample.{sample_component}
use omxtranscode.Encode.{Setting}
use omxtranscode.Pipeline.Tables.{Table}
use omxtranscode.Encode.{configure_pipeline}
use omxtranscode.Encode.Configure.Stages.{
  deinterlacer_awaited, encoder_awaited, IsPrepared, configure_pipeline-IsPrepared,
}
use omxtranscode.Encode.Feed.{Supplies, Fed, feed_loop-Fed}
use omxtranscode.Encode.Changed.{IsFine, supply_changed, start_changed}
use omxtranscode.Encode.Sample.{
  empties, env, setting, IsSingle, supply, key_packet, start, start-IsSingle,
}

-- The pipeline is configured when the first piece has been filled.
feed_loop-Fed_example :
    Fed setting 3 env IsFine key_packet
      (λ log call. refl)
      start_changed
      (feed_loop setting 3 env 5 key_packet start_changed)
feed_loop-Fed_example =
    feed_loop-Fed setting 3 env IsFine key_packet (λ log call. refl) supply_changed 5 start_changed
      (inl refl) refl (omega arith)

-- One packet is queued; another comes in a wait, and the end while it is fed.
abbrev arrivals : ℕ → List (PacketQueue (List Packet) → PacketQueue (List Packet))
arrivals zero = (λ q. (packet_queue_add_item plain q (some (packet 2))).0) ∷ []
arrivals (suc n) = []

abbrev during : ℕ → PacketQueue (List Packet) → PacketQueue (List Packet)
during zero q = record q { queue_finished = 1 }
during (suc n) q = q

abbrev decoder : Decoder setting plain
decoder = record { input_video_queue = queue_of (key_packet ∷ []); feeder = start; freed = [] }

fed : Feeds setting plain arrivals during (key_packet ∷ packet 2 ∷ []) 2 decoder.input_video_queue
unfolding queue_of has_more unlink_first packet_queue_add_item ◌-ℤ◌ ◌+ℤ◌
fed = (
  record { more = refl; ws = []; later = []; split = refl; empty = tt; rest = []; first = refl },
  (
    record {
      more = refl;
      ws = arrivals 0;
      later = [];
      split = refl;
      empty = (refl, tt);
      rest = [];
      first = refl;
    },
    (refl, refl, refl),
  ),
)

decode_loop-Decodes_example :
    Decodes setting plain IsSingle
      (key_packet ∷ packet 2 ∷ [])
      decoder
      (decode_loop setting plain 3 arrivals during (λ i. env) 2 decoder)
decode_loop-Decodes_example =
    decode_loop-Decodes setting plain 3 arrivals during (λ i. env) IsSingle (λ log call. refl)
      (λ i. supply) (key_packet ∷ packet 2 ∷ []) 2 decoder start-IsSingle fed (refl, (refl, tt))

-- The input ends while the loop waits for a packet.
abbrev ends : ℕ → List (PacketQueue (List Packet) → PacketQueue (List Packet))
ends n = (λ q. record q { queue_finished = 1 }) ∷ []

abbrev waiting : Decoder setting plain
waiting = record { input_video_queue = queue_of []; feeder = start; freed = [] }

decode_loop-blocks_example : decode_loop setting plain 3 ends during (λ i. env) 1 waiting ≡ blocks
unfolding queue_of
decode_loop-blocks_example =
    decode_loop-blocks setting plain ends during 3 (λ i. env) 0 waiting (omega arith) (refl, tt)
      refl

flags-AreBits : AreBits flags
flags-AreBits = record {
  some_starttime = omega arith;
  some_syncframe = omega arith;
  some_endofframe = omega arith;
  time_unknown-starttime = refl;
  syncframe-starttime = refl;
  endofframe-starttime = refl;
  starttime-syncframe = refl;
  time_unknown-syncframe = refl;
  endofframe-syncframe = refl;
  starttime-endofframe = refl;
  time_unknown-endofframe = refl;
  syncframe-endofframe = refl;
}

-- The last piece of the first packet, a key frame.
input_flags-read_example :
    let word = input_flags flags 1 key_packet 1 0 in
    (has_flag word flags.starttime ≡ not (1 == 0))
    × (has_flag word flags.syncframe ≡ has_flag key_packet.flags 1)
    × (has_flag word flags.endofframe ≡ (0 == 0))
input_flags-read_example = input_flags-read flags flags-AreBits 1 key_packet 1 0

-- The whole thread: the decoder's port 130 gets the one buffer, and OpenMAX knows one domain.
abbrev up : SetUp
up = record {
  answers = record { handle = λ p. 77; ports = λ p. none ∷ some (130, 2) ∷ [] };
  decoder_input = record { is_input = true };
  decoder_buffers = (10, header 0 0) ∷ [];
  video_codec = 4;
}

abbrev HasThree : Ptr → BufferHeader → Type 0
HasThree a b = (b.n_alloc_len ≡ 3) × (length b.p_buffer ≡ 3)

abbrev events : List Delivery
events = awaited flags willing (λ log call. refl) commands up.answers []

abbrev shared : Shared setting up plain
shared = record {
  input_video_queue = queue_of (key_packet ∷ []);
  encoded_video_queue = queue_of [];
  first_packet = 1;
  machine = record (machine events) { heap = λ a. none };
}

set_up-IsSingle :
    (m : Machine)
    → IsSetUp flags willing
        (λ log call. refl)
        commands
        up.answers
        HasThree
        up.decoder_input
        (10 ∷ [])
        []
        m
    → IsSingle m
set_up-IsSingle m h =
    let b = h.chain.2.0 in
    let size = h.good 10 b h.chain.2.1 in
    record {
      header = b;
      held = h.chain.2.1;
      end = h.chain.2.2;
      room = size.0;
      sized = size.1;
      list = ap (λ (c : Component). c.in_buffers) h.decoder ∙ h.chain.0;
      quiet = record {
        decoder = rw (ap (λ (c : Component). c.port_settings_changed) h.decoder);
        deinterlacer = rw (ap (λ (c : Component). c.port_settings_changed) h.deinterlacer);
        encoder = rw (ap (λ (c : Component). c.port_settings_changed) h.encoder);
      };
    }

last_supply : (m : Machine) → IsSingle m → Supplies setting 3 (λ j. empties ∷ []) IsSingle 0 m
last_supply m s = supply 0 m s

no_headers : (a : Ptr) (b : BufferHeader) → none ≡ some b → HasThree a b
no_headers a b e = cc

decode_thread-IsDecoded_example :
    Yields
      (IsDecoded setting up plain 3 arrivals during
        (λ i. env)
        (empties ∷ [])
        IsSingle
        (λ log call. refl)
        (key_packet ∷ packet 2 ∷ []))
      (decode_thread setting up plain 3 arrivals during (λ i. env) (empties ∷ []) 2 shared)
decode_thread-IsDecoded_example =
    decode_thread-IsDecoded setting up plain 3 arrivals during (λ i. env) (empties ∷ []) IsSingle
      (λ log call. refl) HasThree [] (key_packet ∷ packet 2 ∷ []) 2 shared (omega arith)
      (omega arith) (omega arith) (refl, omega arith, refl, tt) (λ a b next h. h) ((refl, refl), tt)
      no_headers refl set_up-IsSingle (λ i. supply) last_supply fed (refl, (refl, tt))

-- The encoder gets two headers.
abbrev encoder_setting : Setting
encoder_setting = record setting { encoder_buffers = (30, header 0 0) ∷ (40, header 0 0) ∷ [] }

-- Each component's format is new.
abbrev changed : Table
changed p = record sample_component { port_settings_changed = 1 }

abbrev changed_machine : Machine
changed_machine =
    record (machine (
      deinterlacer_awaited encoder_setting (λ log call. refl) changed
        (encoder_awaited encoder_setting (λ log call. refl) changed []))) {
          component = changed;
          heap = λ a. none;
        }

configure_pipeline-IsPrepared_example :
    Yields
      (λ r. IsPrepared encoder_setting (λ log call. refl) changed (λ a. none) [] r.1)
      (configure_pipeline encoder_setting changed_machine)
configure_pipeline-IsPrepared_example =
    configure_pipeline-IsPrepared encoder_setting (λ log call. refl) HasThree changed []
      changed_machine (record { live = λ p. omega arith; idle = λ p. refl }) (omega arith)
      (refl, omega arith, refl, (refl, omega arith, refl, tt)) (λ a b next h. h)
      ((refl, refl), ((refl, refl), tt)) no_headers
      (record { parts = λ q. refl; headers = refl; pending = refl })
