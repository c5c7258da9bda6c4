-- ===== src/Encode/Configure/Stages.antt =====
-- The three tests of `port_settings_changed` between two buffers, in any combination of the flags.
use omxtranscode.Base.{
  ◌≡◌, ◌≢◌, ◌∙◌, refl, sym, ap, true, false, Bool, Bool-cases, inl, inr, List, [], ◌∷◌, ◌==◌,
  if◌then◌else◌, Cmd, Yields, Yields-map, Yields-next,
}
use omxtranscode.PacketQueue.{Ptr}
use omxtranscode.Omx.{
  BufferHeader, Heap, Component, Part, video_decode, image_fx, video_encode, Delivery, Machine,
}
use omxtranscode.Buffer.Chain.{Chain}
use omxtranscode.Omx.Command.{no_cmd}
use omxtranscode.Ports.Alloc.{Accepts, Fresh, addresses, holding}
use omxtranscode.Ports.Headers.{Everywhere, ForgetsLinks, AllMade}
use omxtranscode.Pipeline.Disable.{completion}
use omxtranscode.Pipeline.Tables.{Table, put, IsAt}
use omxtranscode.Encode.{
  Setting, clear_port_settings, configure_deinterlacer, configure_encoder, start_consumer,
  if_changed, configure_pipeline,
}
use omxtranscode.Encode.Configure.{AreIdle, settled, then_at, configure_deinterlacer-IsAt}
use omxtranscode.Encode.Configure.Encoder.{
  encoder_events, IsConfigured, by_part, same_table, configure_encoder-IsConfigured,
}

abbrev has_changed : Component → Bool
has_changed c = c.port_settings_changed == 1

-- The component once its flag has been seen.
abbrev pub seen : Component → Component
seen c = if has_changed c then settled c else c

-- The encoder once its flag has been seen.
abbrev pub running : Component → Component
running c = if has_changed c then record c { port_settings_changed = 0; is_running = 1 } else c

if_changed-Yields :
    (set : Setting) (p : Part) (change : Cmd Machine (Unit {0})) (m : Machine)
    (Q : Unit {0} × Machine → Type 0)
    → (has_changed (m.component p) ≡ true → Yields Q (change m))
    → (has_changed (m.component p) ≡ false → Q (tt, m))
    → Yields Q (if_changed set p change m)
unfolding if_changed
if_changed-Yields set p change m Q on off = elim (Bool-cases (has_changed (m.component p))) [
  | inl e ↦ rw e (on e)
  | inr e ↦ rw e (off e)
]

module _ (set : Setting) (accepts : Accepts set.il) where
  open set use {commands, il}

  -- The completions that the tests await.
  abbrev pub deinterlacer_awaited : Table → List Delivery → List Delivery
  deinterlacer_awaited t ds =
      if has_changed (t video_decode)
      then completion video_decode commands.port_enable 131
        ∷ completion image_fx commands.port_enable 190
        ∷ completion image_fx commands.state_set commands.executing
        ∷ ds
      else ds

  abbrev pub encoder_awaited : Table → List Delivery → List Delivery
  encoder_awaited t ds = if has_changed (t image_fx) then encoder_events set accepts ds else ds

  -- The encoder before its own test, and the headers then: it holds those made for it if the
  -- deinterlacer's flag was set.
  abbrev pub HasHeaders : Bool → (old : Component) → Heap → (c : Component) → Heap → Type 0
  HasHeaders true old g c heap =
      (list : Ptr) × Chain heap list (addresses set.encoder_buffers)
      × (c ≡ holding set.encoder_output list old)
  HasHeaders false old g c heap = (c ≡ old) × (heap ≡ g)

  -- Behind the tests of the decoder's and the deinterlacer's flag.
  record IsConnected (t : Table) (g : Heap) (ds : List Delivery) (m : Machine) : Type 0 where
    pub has_headers :
        HasHeaders (has_changed (t image_fx)) (t video_encode) g (m.component video_encode) m.heap
    pub decoder : m.component video_decode ≡ t video_decode
    pub deinterlacer : m.component image_fx ≡ seen (t image_fx)
    pub pending : m.pending ≡ ds

  -- Behind all three tests.
  pub record IsPrepared (t : Table) (g : Heap) (ds : List Delivery) (m : Machine) : Type 0 where
    pub before : Component
    pub has_headers : HasHeaders (has_changed (t image_fx)) (t video_encode) g before m.heap
    pub decoder : m.component video_decode ≡ seen (t video_decode)
    pub deinterlacer : m.component image_fx ≡ seen (t image_fx)
    pub encoder : m.component video_encode ≡ running before
    pub pending : m.pending ≡ ds

  deinterlacer_step :
      (t : Table) (heap : Heap) (ds : List Delivery) (m : Machine)
      → AreIdle t
      → IsAt t heap (deinterlacer_awaited t ds) m
      → Yields
          (λ r. IsAt (put video_decode (seen (t video_decode)) t) heap ds r.1)
          (if_changed set video_decode (configure_deinterlacer set) m)
  deinterlacer_step t heap ds m a h =
      let same = ap has_changed (h.parts video_decode) in
      if_changed-Yields set video_decode (configure_deinterlacer set) m _ (λ e. on (sym same ∙ e))
        (λ e. off (sym same ∙ e))
    where
      on :
          has_changed (t video_decode) ≡ true
          → Yields
              (λ r. IsAt (put video_decode (seen (t video_decode)) t) heap ds r.1)
              (configure_deinterlacer set m)
      on e = rw e (
          configure_deinterlacer-IsAt set accepts t heap ds m a
            (record { parts = h.parts; headers = h.headers; pending = h.pending ∙ rw e refl }))

      off :
          has_changed (t video_decode) ≡ false
          → IsAt (put video_decode (seen (t video_decode)) t) heap ds m
      off e =
          same_table set accepts t (put video_decode (seen (t video_decode)) t) heap ds m
            (by_part set accepts t (put video_decode (seen (t video_decode)) t) (rw e refl) refl
              refl)
            (record { parts = h.parts; headers = h.headers; pending = h.pending ∙ rw e refl })

  encoder_step :
      (P : Ptr → BufferHeader → Type 0) (t : Table) (g : Heap) (ds : List Delivery) (m : Machine)
      → AreIdle t
      → commands.state_set ≢ commands.port_enable
      → Fresh [] set.encoder_buffers
      → ForgetsLinks P
      → AllMade P set.encoder_buffers
      → Everywhere P m.heap
      → IsAt t g (encoder_awaited t ds) m
      → Yields (λ r. IsConnected t g ds r.1) (if_changed set image_fx (configure_encoder set) m)
  encoder_step P t g ds m a differ fresh forgets good all h =
      let same = ap has_changed (h.parts image_fx) in
      if_changed-Yields set image_fx (configure_encoder set) m _ (λ e. on (sym same ∙ e))
        (λ e. off (sym same ∙ e))
    where
      on :
          has_changed (t image_fx) ≡ true
          → Yields (λ r. IsConnected t g ds r.1) (configure_encoder set m)
      on e =
          Yields-map (λ r. IsConfigured set accepts P t ds r.1) _ (configure_encoder set m)
            (configure_encoder-IsConfigured set accepts P t ds m a differ fresh forgets good all
              (record { parts = h.parts; headers = refl; pending = h.pending ∙ rw e refl }))
            λ r c. record {
              has_headers = rw e (c.list, c.chain, c.encoder);
              decoder = c.decoder;
              deinterlacer = c.deinterlacer ∙ rw e refl;
              pending = c.pending;
            }

      off : has_changed (t image_fx) ≡ false → IsConnected t g ds m
      off e = record {
        has_headers = rw e (h.parts video_encode, h.headers);
        decoder = h.parts video_decode;
        deinterlacer = h.parts image_fx ∙ rw e refl;
        pending = h.pending ∙ rw e refl;
      }

  consumer_step :
      (t : Table) (g : Heap) (ds : List Delivery) (m : Machine)
      → IsConnected (put video_decode (seen (t video_decode)) t) g ds m
      → Yields (λ r. IsPrepared t g ds r.1) (if_changed set video_encode (start_consumer set) m)
  unfolding start_consumer clear_port_settings
  consumer_step t g ds m h =
      if_changed-Yields set video_encode (start_consumer set) m _
        (λ e. record {
          before = m.component video_encode;
          has_headers = h.has_headers;
          decoder = h.decoder;
          deinterlacer = h.deinterlacer;
          encoder = rw e refl;
          pending = h.pending;
        })
        λ e. record {
          before = m.component video_encode;
          has_headers = h.has_headers;
          decoder = h.decoder;
          deinterlacer = h.deinterlacer;
          encoder = rw e refl;
          pending = h.pending;
        }

  seen-AreIdle : (t : Table) → AreIdle t → AreIdle (put video_decode (seen (t video_decode)) t)
  seen-AreIdle t a = record { live = live_of; idle = idle_of }
    where
      live_of : (p : Part) → (put video_decode (seen (t video_decode)) t p).h ≢ 0
      live_of video_decode = elim (Bool-cases (has_changed (t video_decode))) [
        | inl e ↦ rw e (a.live video_decode)
        | inr e ↦ rw e (a.live video_decode)
      ]
      live_of image_fx = a.live image_fx
      live_of video_encode = a.live video_encode

      idle_of : (p : Part) → (put video_decode (seen (t video_decode)) t p).cmd ≡ no_cmd
      idle_of video_decode = elim (Bool-cases (has_changed (t video_decode))) [
        | inl e ↦ rw e (a.idle video_decode)
        | inr e ↦ rw e (a.idle video_decode)
      ]
      idle_of image_fx = a.idle image_fx
      idle_of video_encode = a.idle video_encode

  -- If OpenMAX accepts every call, makes the encoder's headers at addresses of their own with the
  -- `NULL` that it was given, and delivers, first, the completions that the set flags call for, each
  -- component has a handle and no command under way, and the codes of `OMX_CommandStateSet` and
  -- `OMX_CommandPortEnable` differ, then the configuration between two buffers ends, whichever flags
  -- are set: each flag that was set is cleared; with the deinterlacer's flag the encoder holds its
  -- headers as one list, in order, and without it the headers are as before; with the encoder's flag
  -- it is marked as running; nothing else of the components has changed.
  pub configure_pipeline-IsPrepared :
      (P : Ptr → BufferHeader → Type 0) (t : Table) (ds : List Delivery) (m : Machine)
      → AreIdle t
      → commands.state_set ≢ commands.port_enable
      → Fresh [] set.encoder_buffers
      → ForgetsLinks P
      → AllMade P set.encoder_buffers
      → Everywhere P m.heap
      → IsAt t m.heap (deinterlacer_awaited t (encoder_awaited t ds)) m
      → Yields (λ r. IsPrepared t m.heap ds r.1) (configure_pipeline set m)
  unfolding configure_pipeline
  configure_pipeline-IsPrepared P t ds m a differ fresh forgets good all h =
      let t1 : Table = put video_decode (seen (t video_decode)) t in
      then_at set accepts _ t1 m.heap (encoder_awaited t ds) _ _
        (deinterlacer_step t m.heap (encoder_awaited t ds) m a h)
        λ r1 h1.
          Yields-next (λ r. IsConnected t1 m.heap ds r.1) _ _ _
            (encoder_step P t1 m.heap ds r1.1 (seen-AreIdle t a) differ fresh forgets good
              (rw h1.headers all)
              (record { parts = h1.parts; headers = h1.headers; pending = h1.pending }))
            λ r2 h2. consumer_step t m.heap ds r2.1 h2
