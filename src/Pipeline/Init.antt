-- ===== src/Pipeline/Init.antt =====
-- `omx_init_component`: every port is disabled, and the component is as good as new.
use omxtranscode.Base.{◌≡◌, ◌≢◌, ◌∙◌, refl, false, List, ◌∷◌, Outcome, ok, exits, blocks, fault}
use omxtranscode.External.{BufferFlags, Commands}
use omxtranscode.Omx.{Part, Delivery, Machine, same_part, set_component, Il, get_handle}
use omxtranscode.Omx.Wait.{same_part_refl}
use omxtranscode.Ports.Alloc.{Accepts, oerr-ok}
use omxtranscode.Pipeline.{
  Answers, component_name, blank_component, omx_disable_all_ports, omx_init_component,
}
use omxtranscode.Pipeline.Disable.{Completes, all_disabled, disable_domains-Completes}

module _ (f : BufferFlags) (il : Il) (accepts : Accepts il) where
  module _ (cs : Commands) (answers : Answers) where
    -- The component `p` is new, with its handle; `ds` are still to be delivered.
    pub record IsNew (p : Part) (m : Machine) (ds : List Delivery) (m' : Machine) : Type 0 where
      pub pending : m'.pending ≡ ds
      pub at : m'.component p ≡ record (blank_component p) { h = answers.handle p }
      pub others : (q : Part) → same_part p q ≡ false → m'.component q ≡ m.component q
      pub same_heap : m'.heap ≡ m.heap

    abbrev pub Initialises : Part → Machine → List Delivery → Outcome (Unit {0} × Machine) → Type 0
    Initialises p m ds (ok r) = IsNew p m ds r.1
    Initialises p m ds _ = ⊥

    named : Part → Machine → Machine
    named p m =
        record (set_component p (record (blank_component p) { h = answers.handle p })
          (set_component p (blank_component p) m)) { log = get_handle (component_name p) ∷ m.log }

    new_end :
        (p : Part) (m : Machine) (ds : List Delivery) (o : Outcome (Unit {0} × Machine))
        → Completes p (named p m) ds o
        → Initialises p m ds o
    unfolding named
    new_end p m ds (ok r) c = record {
      pending = c.pending;
      at = c.at ∙ rw (same_part_refl p);
      others = λ q ne. c.others q ne ∙ rw ne;
      same_heap = c.same_heap;
    }
    new_end p m ds (exits n) c = c
    new_end p m ds blocks c = c
    new_end p m ds fault c = c

    -- If OpenMAX accepts every call, gives the component a handle and delivers, first, the completions
    -- of disabling the ports of each domain that it knows, in order, then `omx_init_component` ends
    -- when all of these have come; the component is new, with its name, its handle, the
    -- callback for its kind, no command under way and no buffers, and no other component changes.
    pub init_component-IsNew :
        (p : Part) (m : Machine) (ds : List Delivery)
        → answers.handle p ≢ 0
        → m.pending ≡ all_disabled cs p (answers.ports p) ds
        → Initialises p m ds (omx_init_component f cs il answers p m)
    unfolding omx_init_component omx_disable_all_ports named
    init_component-IsNew p m ds live e =
        rw
          (oerr-ok il (get_handle (component_name p)) (set_component p (blank_component p) m)
            accepts)
          (new_end p m ds _ (
            disable_domains-Completes f il accepts cs answers p 0 (answers.ports p) (named p m) ds
              (rw (same_part_refl p) live) (rw (same_part_refl p) refl) e))
