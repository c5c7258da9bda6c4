-- ===== src/Encode/Configure.antt =====
-- The configuration of the pipeline between two buffers: the deinterlacer, once the decoder knows its
-- format.
pub mod Encoder
pub mod Stages
use omxtranscode.Base.{
  arith, Cmd, ◌>>=◌, ◌>>◌, Yields-map, ℕ, ◌≡◌, ◌≢◌, ◌∙◌, refl, sym, ap, List, [], ◌∷◌, Outcome, ok,
  and_then, Yields, Yields-next,
}
use omxtranscode.PacketQueue.{Ptr}
use omxtranscode.Omx.{
  BufferHeader, Heap, Component, OmxCmd, Part, video_decode, image_fx, video_encode, Delivery,
  Machine, setup_tunnel,
}
use omxtranscode.Omx.Command.{no_cmd, omx_send_command_and_wait0, omx_send_command_and_wait1}
use omxtranscode.Omx.Wait.{same_part_refl}
use omxtranscode.Buffer.{with_component}
use omxtranscode.Buffer.Chain.{Chain}
use omxtranscode.Ports.{PortDefinition}
use omxtranscode.Ports.Alloc.{Accepts, Fresh, addresses, holding}
use omxtranscode.Ports.Headers.{Everywhere, ForgetsLinks, AllMade}
use omxtranscode.Pipeline.Disable.{completion}
use omxtranscode.Pipeline.Tables.{
  Table, put, IsAt, IsHolding, issued, put_cases, oerr-IsAt, wait0-IsAt, alloc_buffers-IsHolding,
  wait1-IsAt, send-IsAt,
}
use omxtranscode.Pipeline.Tables.Waits.{wait1_idle-IsAt, wait1_overwritten-IsAt}
use omxtranscode.Encode.{
  Setting, send_and_wait, tunnel, clear_port_settings, configure_deinterlacer, configure_encoder,
  start_consumer,
}

-- Each component has a handle and no command under way.
pub record AreIdle (t : Table) : Type 0 where
  pub live : (p : Part) → (t p).h ≢ 0
  pub idle : (p : Part) → (t p).cmd ≡ no_cmd

abbrev pub settled : Component → Component
settled c = record c { port_settings_changed = 0 }

module _ (set : Setting) (accepts : Accepts set.il) where
  open set use {buffer_flags, commands, il}

  pub then_at :
      {A : Type 0} (Q : A → Type 0) (t : Table) (heap : Heap) (ds : List Delivery)
      (o : Outcome (Unit {0} × Machine)) (k : Unit {0} × Machine → Outcome A)
      → Yields (λ r. IsAt t heap ds r.1) o
      → ((r : Unit {0} × Machine) → IsAt t heap ds r.1 → Yields Q (k r))
      → Yields Q (and_then o k)
  then_at Q t heap ds o k h next = Yields-next (λ r. IsAt t heap ds r.1) Q o k h next

  clear-IsAt :
      (p : Part) (t : Table) (heap : Heap) (ds : List Delivery) (m : Machine)
      → IsAt t heap ds m
      → Yields (λ r. IsAt (put p (settled (t p)) t) heap ds r.1) (clear_port_settings set p m)
  unfolding clear_port_settings
  clear-IsAt p t heap ds m h = record {
    parts =
        put_cases (with_component p settled m) p _ t
          (rw (same_part_refl p) (ap settled (h.parts p))) (λ q ne. rw ne (h.parts q));
    headers = h.headers;
    pending = h.pending;
  }

  tunnel-IsAt :
      (source : Part) (port : ℕ) (sink : Part) (sink_port : ℕ) (t : Table) (heap : Heap)
      (ds : List Delivery) (m : Machine)
      → IsAt t heap ds m
      → Yields (λ r. IsAt t heap ds r.1) (tunnel set source port sink sink_port m)
  unfolding tunnel
  tunnel-IsAt source port sink sink_port t heap ds m h =
      oerr-IsAt il accepts (setup_tunnel (m.component source).h port (m.component sink).h sink_port)
        t heap ds m h

  -- If the components have no command under way and OpenMAX delivers, first, the completions of
  -- enabling port 131 of the decoder and 190 of the deinterlacer and of the latter's state change, then
  -- the deinterlacer is configured: only the decoder's flag is cleared.
  pub configure_deinterlacer-IsAt :
      (t : Table) (heap : Heap) (ds : List Delivery) (m : Machine)
      → AreIdle t
      → IsAt t heap
          (completion video_decode commands.port_enable 131
            ∷ completion image_fx commands.port_enable 190
            ∷ completion image_fx commands.state_set commands.executing
            ∷ ds)
          m
      → Yields
          (λ r. IsAt (put video_decode (settled (t video_decode)) t) heap ds r.1)
          (configure_deinterlacer set m)
  unfolding configure_deinterlacer send_and_wait
  configure_deinterlacer-IsAt t heap ds m a h =
      let d3 = completion image_fx commands.state_set commands.executing ∷ ds in
      let d2 = completion image_fx commands.port_enable 190 ∷ d3 in
      let d1 = completion video_decode commands.port_enable 131 ∷ d2 in
      let t1 : Table = put video_decode (settled (t video_decode)) t in
      let Q = λ (r : Unit {0} × Machine). IsAt t1 heap ds r.1 in
      then_at Q t1 heap d1 (clear_port_settings set video_decode m) _
        (clear-IsAt video_decode t heap d1 m h)
        λ r1 h1.
          then_at Q t1 heap d1 _ _ (tunnel-IsAt video_decode 131 image_fx 190 t1 heap d1 r1.1 h1)
            λ r2 h2.
              then_at Q t1 heap d2 _ _
                (send-IsAt il accepts buffer_flags video_decode commands.port_enable 131 t1 heap d2
                  r2.1 (a.live video_decode) (a.idle video_decode) h2)
                λ r3 h3.
                  then_at Q t1 heap d3 _ _
                    (send-IsAt il accepts buffer_flags image_fx commands.port_enable 190 t1 heap d3
                      r3.1 (a.live image_fx) (a.idle image_fx) h3)
                    λ r4 h4.
                      send-IsAt il accepts buffer_flags image_fx commands.state_set
                        commands.executing t1 heap ds r4.1 (a.live image_fx) (a.idle image_fx) h4
