-- ===== src/Encode/Changed.antt =====
-- The decoder with one input buffer, when it has just found out its output format.
use omxtranscode.Base.{
  ℕ, ◌≡◌, ◌≢◌, ◌∙◌, refl, ap, some, [], ◌∷◌, arith, ◌==◌, ok, inl, inr, ◌⊎◌, Yields, Yields-ok,
}
use omxtranscode.Omx.{
  BufferHeader, Heap, Component, Part, video_decode, image_fx, video_encode, empty_this_buffer,
  Machine,
}
use omxtranscode.Omx.Command.{no_cmd}
use omxtranscode.Omx.Sample.{header, machine, sample_component}
use omxtranscode.Buffer.{write}
use omxtranscode.Buffer.Chain.{write_self}
use omxtranscode.Buffer.Input.{next_input-first}
use omxtranscode.Pipeline.Tables.{Table, put}
use omxtranscode.Encode.{configure_pipeline, Feeder}
use omxtranscode.Encode.Configure.Stages.{
  deinterlacer_awaited, running, IsPrepared, configure_pipeline-IsPrepared,
}
use omxtranscode.Encode.Feed.{HasRoomOf, Supplies}
use omxtranscode.Encode.Sample.{one_buffer, env, setting, IsSingle, supply, start}

abbrev changed : Table
changed =
    put video_decode (record sample_component { port_settings_changed = 1 }) (λ p. sample_component)

-- OpenMAX will deliver the completions that the configuration waits for.
abbrev pub first : Machine
first = record (machine (deinterlacer_awaited setting (λ log call. refl) changed [])) {
  component = changed;
  heap = one_buffer;
}

-- Before the configuration, or behind it.
abbrev pub IsFine : Machine → Type 0
IsFine m = (m ≡ first) ⊎ IsSingle m

abbrev heap_with : BufferHeader → Heap
heap_with b = write one_buffer 10 (some b)

prepared :
    (b : BufferHeader)
    → Yields
        (λ r. IsPrepared setting (λ log call. refl) changed (heap_with b) [] r.1)
        (configure_pipeline setting (record first { heap = heap_with b }))
prepared b =
    configure_pipeline-IsPrepared setting (λ log call. refl) (λ a c. Unit {0}) changed []
      (record first { heap = heap_with b }) (record { live = live_of; idle = idle_of })
      (omega arith) tt (λ a c next h. tt) tt (λ a c e. tt)
      (record { parts = λ q. refl; headers = refl; pending = refl })
  where
    live_of : (p : Part) → (changed p).h ≢ 0
    live_of video_decode = omega arith
    live_of image_fx = omega arith
    live_of video_encode = omega arith

    idle_of : (p : Part) → (changed p).cmd ≡ no_cmd
    idle_of video_decode = refl
    idle_of image_fx = refl
    idle_of video_encode = refl

outcome :
    (b : BufferHeader)
    → (r : Unit {0} × Machine) × (configure_pipeline setting (record first { heap = heap_with b })
        ≡ ok r)
      × IsPrepared setting (λ log call. refl) changed (heap_with b) [] r.1
outcome b =
    Yields-ok (λ r. IsPrepared setting (λ log call. refl) changed (heap_with b) [] r.1)
      (configure_pipeline setting (record first { heap = heap_with b })) (prepared b)

outcome-IsSingle :
    (b : BufferHeader)
    → HasRoomOf (header 0 0) b
    → let m = (outcome b).0.1 in
      IsSingle (record m { log = empty_this_buffer (m.component video_decode).h 10 ∷ m.log })
outcome-IsSingle b r =
    let h = (outcome b).2 in
    record {
      header = b;
      held = ap (λ (g : Heap). g 10) h.has_headers.1 ∙ write_self one_buffer 10 (some b);
      end = r.same_next;
      room = r.same_room;
      sized = r.same_size;
      list = ap (λ (c : Component). c.in_buffers) h.decoder;
      quiet = record {
        decoder = ap (λ (c : Component). c.port_settings_changed == 1) h.decoder;
        deinterlacer = ap (λ (c : Component). c.port_settings_changed == 1) h.deinterlacer;
        encoder =
            ap (λ (c : Component). c.port_settings_changed == 1) h.encoder
            ∙ ap (λ (c : Component). (running c).port_settings_changed == 1) h.has_headers.0;
      };
    }

first_supply : (n : ℕ) → Supplies setting 3 env IsFine n first
first_supply n = record {
  buffer = 10;
  after = first;
  header = header 0 0;
  got =
      next_input-first 3 video_decode [] (env n) first [] 10 (header 0 0) [] tt refl
        (refl, omega arith, (header 0 0, refl, refl)) tt refl refl (omega arith);
  some_buffer = omega arith;
  held = refl;
  room = omega arith;
  sized = refl;
  later = λ b. (outcome b).0.1;
  configured = λ b. (outcome b).1;
  later_held =
      λ b. ap (λ (g : Heap). g 10) (outcome b).2.has_headers.1 ∙ write_self one_buffer 10 (some b);
  again = λ b r. inr (outcome-IsSingle b r);
}

pub supply_changed : (n : ℕ) (m : Machine) → IsFine m → Supplies setting 3 env IsFine n m
supply_changed n m (inl e) = rw e (first_supply n)
supply_changed n m (inr s) =
    let u = supply n m s in
    record {
      buffer = u.buffer;
      after = u.after;
      header = u.header;
      got = u.got;
      some_buffer = u.some_buffer;
      held = u.held;
      room = u.room;
      sized = u.sized;
      later = u.later;
      configured = u.configured;
      later_held = u.later_held;
      again = λ b r. inr (u.again b r);
    }

abbrev pub start_changed : Feeder
start_changed = record start { machine = first }
