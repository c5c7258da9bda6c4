-- ===== src/Encode/Configure/Encoder.antt =====
-- The configuration of the encoder, once the deinterlacer knows its format.
use omxtranscode.Base.{
  arith, Cmd, ◌>>◌, Yields-map, ◌≡◌, ◌≢◌, ◌∙◌, refl, sym, ap, List, [], ◌∷◌, Yields, Yields-next,
}
use omxtranscode.PacketQueue.{Ptr}
use omxtranscode.Omx.{
  BufferHeader, Heap, Component, OmxCmd, Part, video_decode, image_fx, video_encode, Delivery,
  Machine,
}
use omxtranscode.Omx.Command.{no_cmd, omx_send_command_and_wait0, omx_send_command_and_wait1}
use omxtranscode.Buffer.{with_component}
use omxtranscode.Buffer.Chain.{Chain}
use omxtranscode.Ports.Alloc.{Accepts, Fresh, addresses, holding}
use omxtranscode.Ports.Headers.{Everywhere, ForgetsLinks, AllMade}
use omxtranscode.Pipeline.Disable.{completion}
use omxtranscode.Pipeline.Tables.{
  Table, put, IsAt, IsHolding, issued, oerr-IsAt, wait0-IsAt, alloc_buffers-IsHolding, wait1-IsAt,
  send-IsAt,
}
use omxtranscode.Pipeline.Tables.Waits.{wait1_idle-IsAt, wait1_overwritten-IsAt}
use omxtranscode.Encode.{Setting, send_and_wait, clear_port_settings, configure_encoder}
use omxtranscode.Encode.Configure.{AreIdle, settled, then_at, clear-IsAt, tunnel-IsAt}

module _ (set : Setting) (accepts : Accepts set.il) where
  open set use {buffer_flags, commands, il}

  -- The completions that the configuration of the encoder awaits.
  abbrev pub encoder_events : List Delivery → List Delivery
  encoder_events ds =
      completion video_encode commands.state_set commands.idle
      ∷ completion video_encode commands.port_enable 201
      ∷ completion video_encode commands.port_enable 200
      ∷ completion image_fx commands.port_enable 191
      ∷ completion video_encode commands.state_set commands.executing
      ∷ ds

  -- The encoder holds the headers made for its output, and no component has a command under way.
  pub record IsConfigured (P : Ptr → BufferHeader → Type 0) (t : Table) (ds : List Delivery)
      (m : Machine) : Type 0 where
    pub list : Ptr
    pub chain : Chain m.heap list (addresses set.encoder_buffers)
    pub good : Everywhere P m.heap
    pub decoder : m.component video_decode ≡ t video_decode
    pub deinterlacer : m.component image_fx ≡ settled (t image_fx)
    pub encoder : m.component video_encode ≡ holding set.encoder_output list (t video_encode)
    pub pending : m.pending ≡ ds

  holding-cmd : (list : Ptr) (c : Component) → (holding set.encoder_output list c).cmd ≡ c.cmd
  holding-cmd list c = ground arith

  holding-handle : (list : Ptr) (c : Component) → (holding set.encoder_output list c).h ≡ c.h
  holding-handle list c = ground arith

  holding-cleared :
      (list : Ptr) (k : OmxCmd) (c : Component)
      → c.cmd ≡ no_cmd
      → record (holding set.encoder_output list (record c { cmd = k })) { cmd = no_cmd }
        ≡ holding set.encoder_output list c
  holding-cleared list k c e = ground arith

  pub by_part :
      (t t' : Table)
      → t video_decode ≡ t' video_decode
      → t image_fx ≡ t' image_fx
      → t video_encode ≡ t' video_encode
      → (q : Part) → t q ≡ t' q
  by_part t t' d i e video_decode = d
  by_part t t' d i e image_fx = i
  by_part t t' d i e video_encode = e

  pub same_table :
      (t t' : Table) (heap : Heap) (ds : List Delivery) (m : Machine)
      → ((q : Part) → t q ≡ t' q)
      → IsAt t heap ds m
      → IsAt t' heap ds m
  same_table t t' heap ds m e h = record {
    parts = λ q. h.parts q ∙ e q;
    headers = h.headers;
    pending = h.pending;
  }

  -- The calls behind the wait for port 201.
  abbrev connect_encoder : Cmd Machine (Unit {0})
  connect_encoder = do
    omx_send_command_and_wait0 il image_fx commands.port_enable 191 0
    omx_send_command_and_wait0 il video_encode commands.port_enable 200 0
    omx_send_command_and_wait1 buffer_flags video_encode commands.port_enable 200 0
    omx_send_command_and_wait1 buffer_flags image_fx commands.port_enable 191 0
    send_and_wait set video_encode commands.state_set commands.executing

  reset : (c : Component) → c.cmd ≡ no_cmd → record c { cmd = no_cmd } ≡ c
  reset c e = ap (λ (z : OmxCmd). record c { cmd = z }) (sym e)

  connect-IsAt :
      (t : Table) (heap : Heap) (ds : List Delivery) (m : Machine)
      → AreIdle t
      → IsAt t heap
          (completion video_encode commands.port_enable 200
            ∷ completion image_fx commands.port_enable 191
            ∷ completion video_encode commands.state_set commands.executing
            ∷ ds)
          m
      → Yields (λ r. IsAt t heap ds r.1) (connect_encoder m)
  unfolding send_and_wait
  connect-IsAt t heap ds m a h =
      let Q = λ (r : Unit {0} × Machine). IsAt t heap ds r.1 in
      let d3 = completion video_encode commands.state_set commands.executing ∷ ds in
      let d2 = completion image_fx commands.port_enable 191 ∷ d3 in
      let d1 = completion video_encode commands.port_enable 200 ∷ d2 in
      let t1 : Table = put image_fx (issued commands.port_enable 191 (t image_fx)) t in
      let t2 : Table = put video_encode (issued commands.port_enable 200 (t video_encode)) t1 in
      let t3 : Table = put video_encode (record (t2 video_encode) { cmd = no_cmd }) t2 in
      let t4 : Table = put image_fx (record (t3 image_fx) { cmd = no_cmd }) t3 in
      let back : (q : Part) → t4 q ≡ t q =
        by_part t4 t refl (reset (t image_fx) (a.idle image_fx))
          (reset (t video_encode) (a.idle video_encode)) in
      then_at set accepts Q t1 heap d1 _ _
        (wait0-IsAt il accepts image_fx commands.port_enable 191 t heap d1 m h)
        λ r1 h1.
          then_at set accepts Q t2 heap d1 _ _
            (wait0-IsAt il accepts video_encode commands.port_enable 200 t1 heap d1 r1.1 h1)
            λ r2 h2.
              then_at set accepts Q t3 heap d2 _ _
                (wait1-IsAt il accepts buffer_flags video_encode commands.port_enable 200
                  commands.port_enable 200 t2 heap d2 r2.1 (a.live video_encode) refl refl h2)
                λ r3 h3.
                  then_at set accepts Q t4 heap d3 _ _
                    (wait1-IsAt il accepts buffer_flags image_fx commands.port_enable 191
                      commands.port_enable 191 t3 heap d3 r3.1 (a.live image_fx) refl refl h3)
                    λ r4 h4.
                      send-IsAt il accepts buffer_flags video_encode commands.state_set
                        commands.executing t heap ds r4.1 (a.live video_encode)
                        (a.idle video_encode) (same_table t4 t heap d3 r4.1 back h4)

  -- The table behind the wait for port 201.
  abbrev allocated : Ptr → Table → Table
  allocated list t =
      put video_encode (holding set.encoder_output list (t video_encode))
        (put image_fx (settled (t image_fx)) t)

  allocated-AreIdle : (list : Ptr) (t : Table) → AreIdle t → AreIdle (allocated list t)
  allocated-AreIdle list t a = record { live = live_of; idle = idle_of }
    where
      live_of : (p : Part) → (allocated list t p).h ≢ 0
      live_of video_decode = a.live video_decode
      live_of image_fx = a.live image_fx
      live_of video_encode =
          λ z. a.live video_encode (sym (holding-handle list (t video_encode)) ∙ z)

      idle_of : (p : Part) → (allocated list t p).cmd ≡ no_cmd
      idle_of video_decode = a.idle video_decode
      idle_of image_fx = a.idle image_fx
      idle_of video_encode = holding-cmd list (t video_encode) ∙ a.idle video_encode

  -- The calls behind the allocation.
  abbrev enable_encoder : Cmd Machine (Unit {0})
  enable_encoder = do
    omx_send_command_and_wait1 buffer_flags video_encode commands.port_enable 201 0
    omx_send_command_and_wait1 buffer_flags video_encode commands.state_set commands.idle 0
    connect_encoder

  enable-IsConfigured :
      (P : Ptr → BufferHeader → Type 0) (t : Table) (ds : List Delivery) (m : Machine)
      → AreIdle t
      → commands.state_set ≢ commands.port_enable
      → let t1 : Table = put image_fx (settled (t image_fx)) t in
        let t2 : Table =
          put video_encode (issued commands.state_set commands.idle (t video_encode)) t1 in
        IsHolding il accepts P set.encoder_output video_encode
          (put video_encode (issued commands.port_enable 201 (t2 video_encode)) t2)
          (addresses set.encoder_buffers)
          (encoder_events ds)
          m
        → Yields (λ r. IsConfigured P t ds r.1) (enable_encoder m)
  enable-IsConfigured P t ds m a differ h =
      let Q = λ (r : Unit {0} × Machine). IsConfigured P t ds r.1 in
      let list = h.list in
      let k =
        issued commands.port_enable 201
          (issued commands.state_set commands.idle (t video_encode)) in
      let t1 : Table = put image_fx (settled (t image_fx)) t in
      let t2 : Table =
        put video_encode (issued commands.state_set commands.idle (t video_encode)) t1 in
      let t3 : Table = put video_encode k t2 in
      let t4 : Table = put video_encode (holding set.encoder_output list k) t3 in
      let t5 : Table =
        put video_encode (record (holding set.encoder_output list k) { cmd = no_cmd }) t4 in
      let d3 =
        completion video_encode commands.port_enable 200
        ∷ completion image_fx commands.port_enable 191
        ∷ completion video_encode commands.state_set commands.executing
        ∷ ds in
      let kept = holding-cmd list k in
      let b = allocated-AreIdle list t a in
      let same : (q : Part) → t5 q ≡ allocated list t q =
        by_part t5 (allocated list t) refl refl
          (holding-cleared list k.cmd (t video_encode) (a.idle video_encode)) in
      then_at set accepts Q t5 m.heap d3 _ _
        (wait1_overwritten-IsAt il accepts buffer_flags video_encode commands.state_set
          commands.idle commands.port_enable 201 commands.port_enable 201 t4 m.heap d3 m
          (λ z. a.live video_encode (sym (ap (λ (c : OmxCmd). c.h_component) kept) ∙ z))
          (ap (λ (c : OmxCmd). c.cmd) kept) (ap (λ (c : OmxCmd). c.n_param) kept) differ h.tables)
        λ r1 h1.
          then_at set accepts Q (allocated list t) m.heap d3 _ _
            (wait1_idle-IsAt il accepts buffer_flags video_encode commands.state_set commands.idle
              (allocated list t) m.heap d3 r1.1 (b.idle video_encode)
              (same_table t5 (allocated list t) m.heap d3 r1.1 same h1))
            λ r2 h2.
              Yields-map (λ r. IsAt (allocated list t) m.heap ds r.1) Q (connect_encoder r2.1)
                (connect-IsAt (allocated list t) m.heap ds r2.1 b h2)
                λ r3 h3. record {
                  list = list;
                  chain = rw h3.headers h.chain;
                  good = rw h3.headers h.good;
                  decoder = h3.parts video_decode;
                  deinterlacer = h3.parts image_fx;
                  encoder = h3.parts video_encode;
                  pending = h3.pending;
                }

  -- If OpenMAX accepts every call, makes the encoder's headers at addresses of their own with the
  -- `NULL` that it was given, and delivers, first, the completions of the encoder's change to idle, of
  -- enabling its port 201, its port 200 and the deinterlacer's port 191, and of the encoder's last
  -- state change, and no component has a command under way, then `configure_encoder` ends when all of
  -- these have come: the encoder holds the headers as one list, in order, the
  -- deinterlacer's flag is cleared, and no component is otherwise changed or has a command under way.
  pub configure_encoder-IsConfigured :
      (P : Ptr → BufferHeader → Type 0) (t : Table) (ds : List Delivery) (m : Machine)
      → AreIdle t
      → commands.state_set ≢ commands.port_enable
      → Fresh [] set.encoder_buffers
      → ForgetsLinks P
      → AllMade P set.encoder_buffers
      → Everywhere P m.heap
      → IsAt t m.heap (encoder_events ds) m
      → Yields (λ r. IsConfigured P t ds r.1) (configure_encoder set m)
  unfolding configure_encoder send_and_wait clear_port_settings
  configure_encoder-IsConfigured P t ds m a differ fresh forgets good all h =
      let Q = λ (r : Unit {0} × Machine). IsConfigured P t ds r.1 in
      let d = encoder_events ds in
      let t1 : Table = put image_fx (settled (t image_fx)) t in
      let t2 : Table =
        put video_encode (issued commands.state_set commands.idle (t video_encode)) t1 in
      let t3 : Table = put video_encode (issued commands.port_enable 201 (t2 video_encode)) t2 in
      let m1 = with_component image_fx settled m in
      then_at set accepts Q t1 m.heap d _ _
        (oerr-IsAt il accepts _ t1 m.heap d m1 (clear-IsAt set accepts image_fx t m.heap d m h))
        λ r2 h2.
          then_at set accepts Q t1 m.heap d _ _ (oerr-IsAt il accepts _ t1 m.heap d r2.1 h2)
            λ r3 h3.
              then_at set accepts Q t1 m.heap d _ _
                (tunnel-IsAt set accepts image_fx 191 video_encode 200 t1 m.heap d r3.1 h3)
                λ r4 h4.
                  then_at set accepts Q t2 m.heap d _ _
                    (wait0-IsAt il accepts video_encode commands.state_set commands.idle t1 m.heap d
                      r4.1 h4)
                    λ r5 h5.
                      then_at set accepts Q t3 m.heap d _ _
                        (wait0-IsAt il accepts video_encode commands.port_enable 201 t2 m.heap d
                          r5.1 h5)
                        λ r6 h6.
                          Yields-next
                            (λ r.
                              IsHolding il accepts P set.encoder_output video_encode t3
                                (addresses set.encoder_buffers) d r.1)
                            Q _ _
                            (alloc_buffers-IsHolding il accepts P forgets set.encoder_output
                              set.encoder_buffers video_encode 201 t3 m.heap d r6.1 fresh good all
                              h6)
                            λ r7 h7. enable-IsConfigured P t ds r7.1 a differ h7
