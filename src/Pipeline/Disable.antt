-- ===== src/Pipeline/Disable.antt =====
-- `omx_disable_all_ports` while the commands that it sends complete in turn.
use omxtranscode.Base.{
  ℕ, zero, suc, ◌+◌, ◌≡◌, ◌≢◌, ◌∙◌, refl, sym, ap, false, Option, none, some, List, [], ◌∷◌, arith,
  ◌==◌, Outcome, ok, exits, blocks, fault, and_then,
}
use omxtranscode.External.{BufferFlags, Commands}
use omxtranscode.PacketQueue.{Ptr}
use omxtranscode.Omx.{
  Component, OmxCmd, Part, Delivery, event_cmd_complete, cmd_queue_count_cv, Machine, same_part,
  set_component, Il, get_port_param,
}
use omxtranscode.Omx.Command.{
  no_cmd, deliver, await, omx_send_command_and_wait1, omx_send_command_and_wait,
}
use omxtranscode.Omx.Wait.{same_part_refl, sent, wait0-sent, await-cleared}
use omxtranscode.Ports.Alloc.{Accepts}
use omxtranscode.Pipeline.{Answers, disable_ports, disable_domains}

-- The event that completes a command of `p`.
abbrev pub completion : Part → (cmd n_param : ℕ) → Delivery
completion p cmd n_param = record {
  target = p;
  e_event = event_cmd_complete;
  n_data1 = cmd;
  n_data2 = n_param;
}

-- `p` has no command under way and is otherwise as before; `ds` are still to be delivered.
pub record Idle (p : Part) (m : Machine) (ds : List Delivery) (m' : Machine) : Type 0 where
  pub pending : m'.pending ≡ ds
  pub at : m'.component p ≡ record (m.component p) { cmd = no_cmd }
  pub others : (q : Part) → same_part p q ≡ false → m'.component q ≡ m.component q
  pub same_heap : m'.heap ≡ m.heap

abbrev pub Completes : Part → Machine → List Delivery → Outcome (Unit {0} × Machine) → Type 0
Completes p m ds (ok r) = Idle p m ds r.1
Completes p m ds _ = ⊥

-- The completions that disabling ports waits for.
abbrev pub disabled : Commands → Part → (n port : ℕ) → List Delivery → List Delivery
disabled cs p zero port ds = ds
disabled cs p (suc n) port ds = completion p cs.port_disable port ∷ disabled cs p n (port + 1) ds

abbrev pub all_disabled : Commands → Part → List (Option (ℕ × ℕ)) → List Delivery → List Delivery
all_disabled cs p [] ds = ds
all_disabled cs p (none ∷ domains) ds = all_disabled cs p domains ds
all_disabled cs p (some (start, n) ∷ domains) ds =
    disabled cs p n start (all_disabled cs p domains ds)

module _ (f : BufferFlags) (il : Il) (accepts : Accepts il) where
  deliver-completion :
      (p : Part) (cmd n_param : ℕ) (m : Machine)
      → (m.component p).cmd.cmd ≡ cmd
      → (m.component p).cmd.n_param ≡ n_param
      → deliver f (completion p cmd n_param) m
        ≡ ok (
          tt,
          record (set_component p (record (m.component p) { cmd = no_cmd }) m) {
            signals = (p, cmd_queue_count_cv) ∷ m.signals;
          },
        )
  unfolding deliver
  deliver-completion p cmd n_param m e1 e2 = ground (arith, e1, e2)

  await-completion :
      (p : Part) (cmd n_param : ℕ) (m : Machine) (ds : List Delivery)
      → (m.component p).cmd.h_component ≢ 0
      → (m.component p).cmd.cmd ≡ cmd
      → (m.component p).cmd.n_param ≡ n_param
      → await f p (completion p cmd n_param ∷ ds) m
        ≡ ok (record (set_component p (record (m.component p) { cmd = no_cmd }) m) {
          signals = (p, cmd_queue_count_cv) ∷ m.signals;
          pending = ds;
        })
  unfolding await
  await-completion p cmd n_param m ds busy e1 e2 =
      let test : ((m.component p).cmd.h_component == 0) ≡ false = ground arith in
      rw (test, await, deliver-completion p cmd n_param m e1 e2)
        (await-cleared f p ds _ (ground (arith, same_part_refl p)))

  pub await-pending :
      (p : Part) (cmd n_param : ℕ) (m : Machine) (ds l : List Delivery)
      → l ≡ completion p cmd n_param ∷ ds
      → (m.component p).cmd.h_component ≢ 0
      → (m.component p).cmd.cmd ≡ cmd
      → (m.component p).cmd.n_param ≡ n_param
      → await f p l m
        ≡ ok (record (set_component p (record (m.component p) { cmd = no_cmd }) m) {
          signals = (p, cmd_queue_count_cv) ∷ m.signals;
          pending = ds;
        })
  await-pending p cmd n_param m ds l e busy e1 e2 =
      rw e (await-completion p cmd n_param m ds busy e1 e2)

  pub send-Completes :
      (p : Part) (cmd n_param : ℕ) (d : Ptr) (m : Machine) (ds : List Delivery)
      → (m.component p).h ≢ 0
      → m.pending ≡ completion p cmd n_param ∷ ds
      → Completes p m ds (omx_send_command_and_wait f il p cmd n_param d m)
  unfolding omx_send_command_and_wait omx_send_command_and_wait1
  send-Completes p cmd n_param d m ds live e =
      let m' = sent p cmd n_param d m in
      rw
        (
          wait0-sent il p cmd n_param d m (accepts m.log _),
          await-pending p cmd n_param m' ds m.pending e (ground (arith, same_part_refl p))
              (ground (arith, same_part_refl p)) (ground (arith, same_part_refl p)),
        )
        (record {
          pending = refl;
          at = rw (same_part_refl p);
          others = λ q ne. rw ne;
          same_heap = refl;
        })

  Idle-trans :
      (p : Part) (m m1 : Machine) (ds ds' : List Delivery) (o : Outcome (Unit {0} × Machine))
      → Idle p m ds m1
      → Completes p m1 ds' o
      → Completes p m ds' o
  Idle-trans p m m1 ds ds' (ok r) i j = record {
    pending = j.pending;
    at = j.at ∙ ap (λ (c : Component). record c { cmd = no_cmd }) i.at;
    others = λ q ne. j.others q ne ∙ i.others q ne;
    same_heap = j.same_heap ∙ i.same_heap;
  }
  Idle-trans p m m1 ds ds' (exits n) i j = j
  Idle-trans p m m1 ds ds' blocks i j = j
  Idle-trans p m m1 ds ds' fault i j = j

  Completes-and_then :
      (p : Part) (m : Machine) (ds ds' : List Delivery) (o : Outcome (Unit {0} × Machine))
      (k : Machine → Outcome (Unit {0} × Machine))
      → Completes p m ds o
      → ((m' : Machine) → Idle p m ds m' → Completes p m' ds' (k m'))
      → Completes p m ds' (and_then o λ r. k r.1)
  Completes-and_then p m ds ds' (ok r) k c h = Idle-trans p m r.1 ds ds' (k r.1) c (h r.1 c)
  Completes-and_then p m ds ds' (exits n) k c h = c
  Completes-and_then p m ds ds' blocks k c h = c
  Completes-and_then p m ds ds' fault k c h = c

  module _ (cs : Commands) (answers : Answers) where
    disable_ports-Completes :
        (p : Part) (n port : ℕ) (m : Machine) (ds : List Delivery)
        → (m.component p).h ≢ 0
        → (m.component p).cmd ≡ no_cmd
        → m.pending ≡ disabled cs p n port ds
        → Completes p m ds (disable_ports f cs il answers p n port m)
    unfolding disable_ports
    disable_ports-Completes p zero port m ds live idle e = record {
      pending = e;
      at = ap (λ (c : OmxCmd). record (m.component p) { cmd = c }) idle;
      others = λ q ne. refl;
      same_heap = refl;
    }
    disable_ports-Completes p (suc n) port m ds live idle e =
        Completes-and_then p m (disabled cs p n (port + 1) ds) ds _ _
          (send-Completes p cs.port_disable port 0 m _ live e)
          λ m' i.
            disable_ports-Completes p n (port + 1) m' ds
              (λ z. live (sym (ap (λ (c : Component). c.h) i.at) ∙ z))
              (ap (λ (c : Component). c.cmd) i.at) i.pending

    queried : Part → ℕ → Machine → Machine
    queried p i m = record m { log = get_port_param (m.component p).h i ∷ m.log }

    -- A call logged before.
    Completes-queried :
        (p : Part) (i : ℕ) (m : Machine) (ds : List Delivery) (o : Outcome (Unit {0} × Machine))
        → Completes p (queried p i m) ds o
        → Completes p m ds o
    unfolding queried
    Completes-queried p i m ds (ok r) c = record {
      pending = c.pending;
      at = c.at;
      others = c.others;
      same_heap = c.same_heap;
    }
    Completes-queried p i m ds (exits n) c = c
    Completes-queried p i m ds blocks c = c
    Completes-queried p i m ds fault c = c

    pub disable_domains-Completes :
        (p : Part) (i : ℕ) (domains : List (Option (ℕ × ℕ))) (m : Machine) (ds : List Delivery)
        → (m.component p).h ≢ 0
        → (m.component p).cmd ≡ no_cmd
        → m.pending ≡ all_disabled cs p domains ds
        → Completes p m ds (disable_domains f cs il answers p i domains m)
    unfolding disable_domains queried
    disable_domains-Completes p i [] m ds live idle e = record {
      pending = e;
      at = ap (λ (c : OmxCmd). record (m.component p) { cmd = c }) idle;
      others = λ q ne. refl;
      same_heap = refl;
    }
    disable_domains-Completes p i (none ∷ domains) m ds live idle e =
        Completes-queried p i m ds _
          (disable_domains-Completes p (i + 1) domains (queried p i m) ds live idle e)
    disable_domains-Completes p i (some (start, n) ∷ domains) m ds live idle e =
        Completes-queried p i m ds _ (
          Completes-and_then p (queried p i m) (all_disabled cs p domains ds) ds _ _
            (disable_ports-Completes p n start (queried p i m) _ live idle e)
            λ m' k.
              disable_domains-Completes p (i + 1) domains m' ds
                (λ z. live (sym (ap (λ (c : Component). c.h) k.at) ∙ z))
                (ap (λ (c : Component). c.cmd) k.at) k.pending)
