-- ===== src/Pipeline/Setup.antt =====
-- `omx_setup_encoding_pipeline`: the pipeline up to its decoder.
use omxtranscode.Base.{
  ℕ, ◌≡◌, ◌≢◌, ◌∙◌, refl, sym, ap, List, [], ◌∷◌, arith, Outcome, and_then, Yields, Yields-next,
  Yields-map,
}
use omxtranscode.External.{BufferFlags, Commands}
use omxtranscode.ListApi.{ListApi}
use omxtranscode.PacketQueue.{Ptr, Packet, PacketQueue, packet_queue_init, contents, IsCounted}
use omxtranscode.Omx.{
  BufferHeader, Heap, Component, OmxCmd, video_decode, image_fx, video_encode, Delivery, Machine,
  Il,
}
use omxtranscode.Omx.Command.{no_cmd, omx_send_command_and_wait1, omx_send_command_and_wait}
use omxtranscode.Buffer.Chain.{Chain}
use omxtranscode.Ports.{PortDefinition}
use omxtranscode.Ports.Alloc.{Accepts, Fresh, addresses, holding}
use omxtranscode.Ports.Headers.{Everywhere, ForgetsLinks, AllMade}
use omxtranscode.Pipeline.{Answers, setup_components, omx_setup_encoding_pipeline}
use omxtranscode.Pipeline.Disable.{completion, all_disabled}
use omxtranscode.Pipeline.Tables.{
  Table, put, IsAt, IsHolding, issued, ready, oerr-IsAt, wait0-IsAt, alloc_buffers-IsHolding,
  wait1-IsAt, send-IsAt, init-IsAt,
}

module _ (f : BufferFlags) (il : Il) (accepts : Accepts il) (cs : Commands)
    (answers : Answers) where
  -- The events that the set-up waits for, in order, and then `ds`.
  abbrev pub awaited : List Delivery → List Delivery
  awaited ds = all_disabled cs video_decode (answers.ports video_decode) (
      all_disabled cs image_fx (answers.ports image_fx) (
        all_disabled cs video_encode (answers.ports video_encode) (
          completion video_decode cs.state_set cs.idle
          ∷ completion image_fx cs.state_set cs.idle
          ∷ completion video_decode cs.port_enable 130
          ∷ completion video_decode cs.state_set cs.executing
          ∷ ds)))

  -- The components are initialised, and the decoder holds the headers `bs` as its buffers.
  pub record IsSetUp (P : Ptr → BufferHeader → Type 0) (portdef : PortDefinition) (bs : List Ptr)
      (ds : List Delivery) (m : Machine) : Type 0 where
    pub list : Ptr
    pub chain : Chain m.heap list bs
    pub good : Everywhere P m.heap
    pub decoder :
        m.component video_decode ≡ holding portdef list (ready il accepts f cs answers video_decode)
    pub deinterlacer : m.component image_fx ≡ ready il accepts f cs answers image_fx
    pub encoder : m.component video_encode ≡ ready il accepts f cs answers video_encode
    pub pending : m.pending ≡ ds

  holding-issued :
      (portdef : PortDefinition) (list : Ptr) (cmd n_param : ℕ) (c : Component)
      → c.cmd ≡ no_cmd
      → record (holding portdef list (issued cmd n_param c)) { cmd = no_cmd }
        ≡ holding portdef list c
  holding-issued portdef list cmd n_param c e = ground arith

  holding-handle :
      (portdef : PortDefinition) (list : Ptr) (c : Component) → (holding portdef list c).h ≡ c.h
  holding-handle portdef list c = ground arith

  holding-cmd :
      (portdef : PortDefinition) (list : Ptr) (c : Component) → (holding portdef list c).cmd ≡ c.cmd
  holding-cmd portdef list c = ground arith

  then_at :
      (Q : Unit {0} × Machine → Type 0) (t : Table) (heap : Heap) (ds : List Delivery)
      (o : Outcome (Unit {0} × Machine)) (k : Unit {0} × Machine → Outcome (Unit {0} × Machine))
      → Yields (λ r. IsAt t heap ds r.1) o
      → ((r : Unit {0} × Machine) → IsAt t heap ds r.1 → Yields Q (k r))
      → Yields Q (and_then o k)
  then_at Q t heap ds o k h next = Yields-next (λ r. IsAt t heap ds r.1) Q o k h next

  -- Behind the allocation: the port is enabled, and the decoder runs.
  enabled :
      (P : Ptr → BufferHeader → Type 0) (portdef : PortDefinition) (bs : List Ptr) (t : Table)
      (ds : List Delivery) (m : Machine)
      → IsHolding il accepts P portdef video_decode
          (put video_decode (issued cs.port_enable 130 (t video_decode)) t)
          bs
          (completion video_decode cs.port_enable 130
            ∷ completion video_decode cs.state_set cs.executing
            ∷ ds)
          m
      → (t video_decode).h ≢ 0
      → (t video_decode).cmd ≡ no_cmd
      → t video_decode ≡ ready il accepts f cs answers video_decode
      → t image_fx ≡ ready il accepts f cs answers image_fx
      → t video_encode ≡ ready il accepts f cs answers video_encode
      → Yields
          (λ r. IsSetUp P portdef bs ds r.1)
          (and_then
            (omx_send_command_and_wait1 f video_decode cs.port_enable 130 0 m)
            λ r. omx_send_command_and_wait f il video_decode cs.state_set cs.executing 0 r.1)
  enabled P portdef bs t ds m h live idle e_d e_i e_e =
      let c = issued cs.port_enable 130 (t video_decode) in
      let t4 : Table = put video_decode c t in
      let t5 : Table = put video_decode (holding portdef h.list c) t4 in
      let t6 : Table = put video_decode (record (holding portdef h.list c) { cmd = no_cmd }) t5 in
      let d4 = completion video_decode cs.state_set cs.executing ∷ ds in
      let kept = holding-cmd portdef h.list c in
      then_at (λ r. IsSetUp P portdef bs ds r.1) t6 m.heap d4 _ _
        (wait1-IsAt il accepts f video_decode cs.port_enable 130 cs.port_enable 130 t5 m.heap d4 m
          (λ z. live (sym (ap (λ (k : OmxCmd). k.h_component) kept) ∙ z))
          (ap (λ (k : OmxCmd). k.cmd) kept) (ap (λ (k : OmxCmd). k.n_param) kept) h.tables)
        λ r1 h1.
          Yields-map (λ r. IsAt t6 m.heap ds r.1) (λ r. IsSetUp P portdef bs ds r.1) _
            (send-IsAt il accepts f video_decode cs.state_set cs.executing t6 m.heap ds r1.1
              (λ z. live (sym (holding-handle portdef h.list c) ∙ z)) refl h1)
            λ r k. record {
              list = h.list;
              chain = rw k.headers h.chain;
              good = rw k.headers h.good;
              decoder =
                  k.parts video_decode
                  ∙ holding-issued portdef h.list cs.port_enable 130 (t video_decode) idle
                  ∙ ap (holding portdef h.list) e_d;
              deinterlacer = k.parts image_fx ∙ e_i;
              encoder = k.parts video_encode ∙ e_e;
              pending = k.pending;
            }

  setup-IsSetUp :
      (P : Ptr → BufferHeader → Type 0) (portdef : PortDefinition)
      (made : List (Ptr × BufferHeader)) (video_codec : ℕ) (m : Machine) (ds : List Delivery)
      → answers.handle video_decode ≢ 0
      → answers.handle image_fx ≢ 0
      → answers.handle video_encode ≢ 0
      → Fresh [] made
      → ForgetsLinks P
      → AllMade P made
      → Everywhere P m.heap
      → m.pending ≡ awaited ds
      → Yields
          (λ r. IsSetUp P portdef (addresses made) ds r.1)
          (setup_components f cs il answers portdef made video_codec m)
  unfolding setup_components
  setup-IsSetUp P portdef made video_codec m ds live_d live_i live_e fresh forgets good all e =
      let Q = λ (r : Unit {0} × Machine). IsSetUp P portdef (addresses made) ds r.1 in
      let R = ready il accepts f cs answers in
      let t1 : Table = put video_decode (R video_decode) m.component in
      let t2 : Table = put image_fx (R image_fx) t1 in
      let t3 : Table = put video_encode (R video_encode) t2 in
      let t4 : Table = put video_decode (issued cs.port_enable 130 (t3 video_decode)) t3 in
      let d4 = completion video_decode cs.state_set cs.executing ∷ ds in
      let d3 = completion video_decode cs.port_enable 130 ∷ d4 in
      let d2 = completion image_fx cs.state_set cs.idle ∷ d3 in
      let d1 = completion video_decode cs.state_set cs.idle ∷ d2 in
      let d0 = all_disabled cs video_encode (answers.ports video_encode) d1 in
      let d00 = all_disabled cs image_fx (answers.ports image_fx) d0 in
      then_at Q t1 m.heap d00 _ _
        (init-IsAt il accepts f cs answers video_decode m.component m.heap d00 m live_d
          (record { parts = λ q. refl; headers = refl; pending = e }))
        λ r1 h1.
          then_at Q t2 m.heap d0 _ _
            (init-IsAt il accepts f cs answers image_fx t1 m.heap d0 r1.1 live_i h1)
            λ r2 h2.
              then_at Q t3 m.heap d1 _ _
                (init-IsAt il accepts f cs answers video_encode t2 m.heap d1 r2.1 live_e h2)
                λ r3 h3.
                  then_at Q t3 m.heap d2 _ _
                    (send-IsAt il accepts f video_decode cs.state_set cs.idle t3 m.heap d2 r3.1
                      live_d refl h3)
                    λ r4 h4.
                      then_at Q t3 m.heap d3 _ _
                        (send-IsAt il accepts f image_fx cs.state_set cs.idle t3 m.heap d3 r4.1
                          live_i refl h4)
                        λ r5 h5.
                          then_at Q t3 m.heap d3 _ _ (oerr-IsAt il accepts _ t3 m.heap d3 r5.1 h5)
                            λ r6 h6.
                              then_at Q t3 m.heap d3 _ _
                                (oerr-IsAt il accepts _ t3 m.heap d3 r6.1 h6)
                                λ r7 h7.
                                  then_at Q t3 m.heap d3 _ _
                                    (oerr-IsAt il accepts _ t3 m.heap d3 r7.1 h7)
                                    λ r8 h8.
                                      then_at Q t4 m.heap d3 _ _
                                        (wait0-IsAt il accepts video_decode cs.port_enable 130 t3
                                          m.heap d3 r8.1 h8)
                                        λ r9 h9.
                                          Yields-next
                                            (λ r.
                                              IsHolding il accepts P portdef video_decode t4
                                                (addresses made) d3 r.1)
                                            Q _ _
                                            (alloc_buffers-IsHolding il accepts P forgets portdef
                                              made video_decode 130 t4 m.heap d3 r9.1 fresh good all
                                              h9)
                                            λ r10 h10.
                                              enabled P portdef (addresses made) t3 ds r10.1 h10
                                                live_d refl refl refl refl

  module _ (api : ListApi Packet) where
    open api use {Head, entries-init}

    -- If OpenMAX accepts every call, gives each component a handle, makes the headers at addresses
    -- of their own with the `NULL` that it was given, and delivers, first, the completions of
    -- disabling every port of the three components, of the two state changes, of enabling port 130 and
    -- of the last state change, in this order, then `omx_setup_encoding_pipeline` ends when all
    -- of these have come. The decoder holds the headers as one list, in order; what held of every
    -- header in memory and holds of those made, whatever their links, holds of every header; no component has a
    -- command under way, and all else of them is as initialised; the queue for encoded packets is empty with
    -- a count of 0.
    pub setup_encoding_pipeline-IsSetUp :
        (P : Ptr → BufferHeader → Type 0) (portdef : PortDefinition)
        (made : List (Ptr × BufferHeader)) (video_codec : ℕ) (q : PacketQueue Head) (m : Machine)
        (ds : List Delivery)
        → answers.handle video_decode ≢ 0
        → answers.handle image_fx ≢ 0
        → answers.handle video_encode ≢ 0
        → Fresh [] made
        → ForgetsLinks P
        → AllMade P made
        → Everywhere P m.heap
        → m.pending ≡ awaited ds
        → Yields
            (λ r.
              IsSetUp P portdef (addresses made) ds r.1
              × (contents api r.0 ≡ [])
              × IsCounted api r.0)
            (omx_setup_encoding_pipeline f cs il answers api portdef made video_codec q m)
    unfolding omx_setup_encoding_pipeline packet_queue_init
    setup_encoding_pipeline-IsSetUp P portdef made video_codec q m ds live_d live_i live_e fresh
          forgets good all e =
        Yields-next (λ r. IsSetUp P portdef (addresses made) ds r.1) _ _ _
          (setup-IsSetUp P portdef made video_codec m ds live_d live_i live_e fresh forgets good all
            e)
          λ r h. (h, entries-init, ground (arith, entries-init))
