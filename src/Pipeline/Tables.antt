-- ===== src/Pipeline/Tables.antt =====
-- The calls of the set-up, by what they do to the three components and to the events to come.
pub mod Waits
use omxtranscode.Base.{
  true, arith, ◌==◌, ℕ, ◌≡◌, ◌≢◌, ◌∙◌, refl, sym, ap, false, List, [], ◌∷◌, if◌then◌else◌, Outcome,
  ok, exits, blocks, fault, Yields, Holds, Bool-cases, inl, inr,
}
use omxtranscode.External.{BufferFlags, Commands}
use omxtranscode.PacketQueue.{Ptr}
use omxtranscode.Omx.{
  BufferHeader, Heap, Component, OmxCmd, Part, Delivery, Machine, IlCall, same_part, set_component,
  Il, oerr,
}
use omxtranscode.Omx.Command.{
  no_cmd, await, deliver, omx_event_handler, omx_send_command_and_wait0, omx_send_command_and_wait1,
  omx_send_command_and_wait,
}
use omxtranscode.Omx.Wait.{same_part_refl, same_part-eq, sent, wait0-sent}
use omxtranscode.Buffer.Chain.{Chain}
use omxtranscode.Ports.{PortDefinition, omx_alloc_buffers}
use omxtranscode.Ports.Alloc.{
  Accepts, Fresh, addresses, holding, Allocates, alloc_buffers-Allocated, oerr-ok,
}
use omxtranscode.Ports.Headers.{Everywhere, ForgetsLinks, AllMade, alloc_buffers-Everywhere}
use omxtranscode.Pipeline.{Answers, blank_component, omx_init_component}
use omxtranscode.Pipeline.Disable.{
  completion, Completes, send-Completes, await-pending, all_disabled,
}
use omxtranscode.Pipeline.Init.{Initialises, init_component-IsNew}

-- What each component is.
abbrev pub Table : Type 0
Table = Part → Component

abbrev pub put : Part → Component → Table → Table
put p c t q = if same_part p q then c else t q

-- The components are those of `t`, the headers those of `heap`, and `ds` is still to be delivered.
pub record IsAt (t : Table) (heap : Heap) (ds : List Delivery) (m : Machine) : Type 0 where
  pub parts : (q : Part) → m.component q ≡ t q
  pub headers : m.heap ≡ heap
  pub pending : m.pending ≡ ds

-- To split on whether a component is the one that a call changes.
pub put_cases :
    (m : Machine) (p : Part) (c : Component) (t : Table)
    → m.component p ≡ c
    → ((q : Part) → same_part p q ≡ false → m.component q ≡ t q)
    → (q : Part) → m.component q ≡ put p c t q
put_cases m p c t at others q = elim (Bool-cases (same_part p q)) [
  | inl e ↦ rw e (ap (λ z. m.component z) (sym (same_part-eq p q e)) ∙ at)
  | inr e ↦ rw e (others q e)
]

-- The component with the command stored.
abbrev pub issued : (cmd n_param : ℕ) → Component → Component
issued cmd n_param c = record c {
  cmd = record { h_component = c.h; cmd = cmd; n_param = n_param; p_cmd_data = 0 };
}

cleared : (c : Component) → c.cmd ≡ no_cmd → record c { cmd = no_cmd } ≡ c
cleared c e = ap (λ (k : OmxCmd). record c { cmd = k }) (sym e)

module _ (il : Il) (accepts : Accepts il) where
  pub oerr-IsAt :
      (call : IlCall) (t : Table) (heap : Heap) (ds : List Delivery) (m : Machine)
      → IsAt t heap ds m
      → Yields (λ r. IsAt t heap ds r.1) (oerr il call m)
  oerr-IsAt call t heap ds m h =
      rw (oerr-ok il call m accepts)
        (record { parts = h.parts; headers = h.headers; pending = h.pending })

  -- The command is stored.
  pub wait0-IsAt :
      (p : Part) (cmd n_param : ℕ) (t : Table) (heap : Heap) (ds : List Delivery) (m : Machine)
      → IsAt t heap ds m
      → Yields
          (λ r. IsAt (put p (issued cmd n_param (t p)) t) heap ds r.1)
          (omx_send_command_and_wait0 il p cmd n_param 0 m)
  wait0-IsAt p cmd n_param t heap ds m h =
      rw (wait0-sent il p cmd n_param 0 m (accepts m.log _)) (record {
        parts =
            put_cases (sent p cmd n_param 0 m) p _ t
              (rw (same_part_refl p) (ap (issued cmd n_param) (h.parts p)))
              (λ q ne. rw ne (h.parts q));
        headers = h.headers;
        pending = h.pending;
      })

  -- The component holds new headers.
  pub record IsHolding (P : Ptr → BufferHeader → Type 0) (portdef : PortDefinition) (p : Part)
      (t : Table) (bs : List Ptr) (ds : List Delivery) (m : Machine) : Type 0 where
    pub list : Ptr
    pub chain : Chain m.heap list bs
    pub good : Everywhere P m.heap
    pub tables : IsAt (put p (holding portdef list (t p)) t) m.heap ds m

  alloc_end :
      (P : Ptr → BufferHeader → Type 0) (portdef : PortDefinition) (p : Part) (t : Table)
      (heap : Heap) (bs : List Ptr) (ds : List Delivery) (m : Machine)
      (o : Outcome (Unit {0} × Machine))
      → IsAt t heap ds m
      → Allocates portdef p m bs o
      → Holds (λ r. Everywhere P r.1.heap) o
      → Yields (λ r. IsHolding P portdef p t bs ds r.1) o
  alloc_end P portdef p t heap bs ds m (ok r) h a g = record {
    list = a.list;
    chain = a.chain;
    good = g;
    tables = record {
      parts =
          put_cases r.1 p _ t (a.holds ∙ ap (holding portdef a.list) (h.parts p))
            (λ q ne. a.others q ne ∙ h.parts q);
      headers = refl;
      pending = a.same_pending ∙ h.pending;
    };
  }
  alloc_end P portdef p t heap bs ds m (exits n) h a g = a
  alloc_end P portdef p t heap bs ds m blocks h a g = a
  alloc_end P portdef p t heap bs ds m fault h a g = a

  pub alloc_buffers-IsHolding :
      (P : Ptr → BufferHeader → Type 0) (forgets : ForgetsLinks P) (portdef : PortDefinition)
      (made : List (Ptr × BufferHeader)) (p : Part) (port : ℕ) (t : Table) (heap : Heap)
      (ds : List Delivery) (m : Machine)
      → Fresh [] made
      → AllMade P made
      → Everywhere P heap
      → IsAt t heap ds m
      → Yields
          (λ r. IsHolding P portdef p t (addresses made) ds r.1)
          (omx_alloc_buffers il portdef made p port m)
  alloc_buffers-IsHolding P forgets portdef made p port t heap ds m fresh good all h =
      alloc_end P portdef p t heap (addresses made) ds m _ h
        (alloc_buffers-Allocated il portdef made p port m accepts fresh)
        (alloc_buffers-Everywhere P forgets il portdef made p port m good (rw h.headers all))

  module _ (f : BufferFlags) where
    -- The completion of the command under way arrives.
    pub wait1-IsAt :
        (p : Part) (cmd n_param cmd' n_param' : ℕ) (t : Table) (heap : Heap) (ds : List Delivery)
        (m : Machine)
        → (t p).cmd.h_component ≢ 0
        → (t p).cmd.cmd ≡ cmd
        → (t p).cmd.n_param ≡ n_param
        → IsAt t heap (completion p cmd n_param ∷ ds) m
        → Yields
            (λ r. IsAt (put p (record (t p) { cmd = no_cmd }) t) heap ds r.1)
            (omx_send_command_and_wait1 f p cmd' n_param' 0 m)
    unfolding omx_send_command_and_wait1
    wait1-IsAt p cmd n_param cmd' n_param' t heap ds m busy e1 e2 h =
        let same = h.parts p in
        rw
          (await-pending f il accepts p cmd n_param m ds m.pending h.pending
            (λ z. busy (sym (ap (λ (c : Component). c.cmd.h_component) same) ∙ z))
            (ap (λ (c : Component). c.cmd.cmd) same ∙ e1)
            (ap (λ (c : Component). c.cmd.n_param) same ∙ e2))
          (record {
            parts =
                put_cases (set_component p (record (m.component p) { cmd = no_cmd }) m) p _ t
                  (rw (same_part_refl p) (ap (λ (c : Component). record c { cmd = no_cmd }) same))
                  (λ q ne. rw ne (h.parts q));
            headers = h.headers;
            pending = refl;
          })

    send_end :
        (p : Part) (t : Table) (heap : Heap) (ds ds' : List Delivery) (m : Machine)
        (o : Outcome (Unit {0} × Machine))
        → (t p).cmd ≡ no_cmd
        → IsAt t heap ds' m
        → Completes p m ds o
        → Yields (λ r. IsAt t heap ds r.1) o
    send_end p t heap ds ds' m (ok r) idle h c = record {
      parts = λ q. elim (Bool-cases (same_part p q)) [
        | inl e ↦
            ap (λ z. r.1.component z) (sym (same_part-eq p q e))
            ∙ c.at
            ∙ ap (λ (k : Component). record k { cmd = no_cmd }) (h.parts p)
            ∙ cleared (t p) idle
            ∙ ap t (same_part-eq p q e)
        | inr e ↦ c.others q e ∙ h.parts q
      ];
      headers = c.same_heap ∙ h.headers;
      pending = c.pending;
    }
    send_end p t heap ds ds' m (exits n) idle h c = c
    send_end p t heap ds ds' m blocks idle h c = c
    send_end p t heap ds ds' m fault idle h c = c

    -- The command completes; no component changes.
    pub send-IsAt :
        (p : Part) (cmd n_param : ℕ) (t : Table) (heap : Heap) (ds : List Delivery) (m : Machine)
        → (t p).h ≢ 0
        → (t p).cmd ≡ no_cmd
        → IsAt t heap (completion p cmd n_param ∷ ds) m
        → Yields (λ r. IsAt t heap ds r.1) (omx_send_command_and_wait f il p cmd n_param 0 m)
    send-IsAt p cmd n_param t heap ds m live idle h = send_end p t heap ds _ m _ idle h (
        send-Completes f il accepts p cmd n_param 0 m ds
          (λ z. live (sym (ap (λ (c : Component). c.h) (h.parts p)) ∙ z)) h.pending)

    module _ (cs : Commands) (answers : Answers) where
      -- The component behind `omx_init_component`.
      abbrev pub ready : Part → Component
      ready p = record (blank_component p) { h = answers.handle p }

      init_end :
          (p : Part) (t : Table) (heap : Heap) (ds ds' : List Delivery) (m : Machine)
          (o : Outcome (Unit {0} × Machine))
          → IsAt t heap ds' m
          → Initialises f il accepts cs answers p m ds o
          → Yields (λ r. IsAt (put p (ready p) t) heap ds r.1) o
      init_end p t heap ds ds' m (ok r) h c = record {
        parts = put_cases r.1 p _ t c.at (λ q ne. c.others q ne ∙ h.parts q);
        headers = c.same_heap ∙ h.headers;
        pending = c.pending;
      }
      init_end p t heap ds ds' m (exits n) h c = c
      init_end p t heap ds ds' m blocks h c = c
      init_end p t heap ds ds' m fault h c = c

      pub init-IsAt :
          (p : Part) (t : Table) (heap : Heap) (ds : List Delivery) (m : Machine)
          → answers.handle p ≢ 0
          → IsAt t heap (all_disabled cs p (answers.ports p) ds) m
          → Yields
              (λ r. IsAt (put p (ready p) t) heap ds r.1)
              (omx_init_component f cs il answers p m)
      init-IsAt p t heap ds m live h =
          init_end p t heap ds _ m _ h
            (init_component-IsNew f il accepts cs answers p m ds live h.pending)
