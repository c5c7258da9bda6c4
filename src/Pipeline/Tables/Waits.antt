-- ===== src/Pipeline/Tables/Waits.antt =====
-- Waits that do not wait for the command that they name: there is none, or another completion comes
-- first.
use omxtranscode.Base.{
  true, arith, ◌==◌, ℕ, ◌≡◌, ◌≢◌, ◌∙◌, refl, sym, ap, false, List, [], ◌∷◌, ok, Yields,
}
use omxtranscode.External.{BufferFlags}
use omxtranscode.Omx.{Heap, Component, OmxCmd, Part, Delivery, Machine, set_component, Il}
use omxtranscode.Omx.Command.{no_cmd, await, deliver, omx_event_handler, omx_send_command_and_wait1}
use omxtranscode.Omx.Wait.{same_part_refl}
use omxtranscode.Ports.Alloc.{Accepts}
use omxtranscode.Pipeline.Disable.{completion, await-pending}
use omxtranscode.Pipeline.Tables.{Table, put, IsAt, put_cases}

module _ (il : Il) (accepts : Accepts il) (f : BufferFlags) where
  await-idle :
      (p : Part) (m : Machine) (l : List Delivery)
      → (m.component p).cmd.h_component ≡ 0
      → await f p l m ≡ ok (record m { pending = l })
  unfolding await
  await-idle p m [] e = ground (arith, e)
  await-idle p m (d ∷ ds) e =
      rw (await, let z : ((m.component p).cmd.h_component == 0) ≡ true = ground (arith, e) in z)

  -- The machine behind an event that changes nothing.
  abbrev passed_over : Part → Machine → Machine
  passed_over p m = record (set_component p (m.component p) m) { signals = m.signals }

  await-passed :
      (p : Part) (cmd0 n_param0 cmd : ℕ) (l : List Delivery) (m : Machine)
      → (m.component p).cmd.h_component ≢ 0
      → (m.component p).cmd.cmd ≡ cmd
      → cmd0 ≢ cmd
      → await f p (completion p cmd0 n_param0 ∷ l) m ≡ await f p l (passed_over p m)
  unfolding await deliver omx_event_handler
  await-passed p cmd0 n_param0 cmd l m busy e other = rw (
    await,
    let z : ((m.component p).cmd.h_component == 0) ≡ false = ground (arith, busy) in z,
    deliver,
    let z : (cmd0 == (m.component p).cmd.cmd) ≡ false = ground (arith, e, other) in z,
  )

  await-passed_at :
      (p : Part) (cmd0 n_param0 cmd : ℕ) (l l' : List Delivery) (m : Machine)
      → l' ≡ completion p cmd0 n_param0 ∷ l
      → (m.component p).cmd.h_component ≢ 0
      → (m.component p).cmd.cmd ≡ cmd
      → cmd0 ≢ cmd
      → await f p l' m ≡ await f p l (passed_over p m)
  await-passed_at p cmd0 n_param0 cmd l l' m e busy same other =
      rw e (await-passed p cmd0 n_param0 cmd l m busy same other)

  -- No command is under way.
  pub wait1_idle-IsAt :
      (p : Part) (cmd n_param : ℕ) (t : Table) (heap : Heap) (ds : List Delivery) (m : Machine)
      → (t p).cmd ≡ no_cmd
      → IsAt t heap ds m
      → Yields (λ r. IsAt t heap ds r.1) (omx_send_command_and_wait1 f p cmd n_param 0 m)
  unfolding omx_send_command_and_wait1
  wait1_idle-IsAt p cmd n_param t heap ds m idle h =
      let none : (m.component p).cmd.h_component ≡ 0 =
        ap (λ (c : Component). c.cmd.h_component) (h.parts p)
        ∙ ap (λ (k : OmxCmd). k.h_component) idle in
      rw (await-idle p m m.pending none)
        (record { parts = h.parts; headers = h.headers; pending = h.pending })

  -- The completion of an earlier command comes first and is passed over.
  pub wait1_overwritten-IsAt :
      (p : Part) (cmd0 n_param0 cmd n_param cmd' n_param' : ℕ) (t : Table) (heap : Heap)
      (ds : List Delivery) (m : Machine)
      → (t p).cmd.h_component ≢ 0
      → (t p).cmd.cmd ≡ cmd
      → (t p).cmd.n_param ≡ n_param
      → cmd0 ≢ cmd
      → IsAt t heap (completion p cmd0 n_param0 ∷ completion p cmd n_param ∷ ds) m
      → Yields
          (λ r. IsAt (put p (record (t p) { cmd = no_cmd }) t) heap ds r.1)
          (omx_send_command_and_wait1 f p cmd' n_param' 0 m)
  unfolding omx_send_command_and_wait1
  wait1_overwritten-IsAt p cmd0 n_param0 cmd n_param cmd' n_param' t heap ds m busy e1 e2 other h =
      let same = h.parts p in
      let m1 = passed_over p m in
      let busy1 : (m.component p).cmd.h_component ≢ 0 =
        λ z. busy (sym (ap (λ (c : Component). c.cmd.h_component) same) ∙ z) in
      let cmd1 = ap (λ (c : Component). c.cmd.cmd) same ∙ e1 in
      let same1 : m1.component p ≡ t p = rw (same_part_refl p) same in
      rw
        (
          await-passed_at p cmd0 n_param0 cmd (completion p cmd n_param ∷ ds) m.pending m h.pending
              busy1 cmd1 other,
          await-pending f il accepts p cmd n_param m1 ds (completion p cmd n_param ∷ ds) refl
              (λ z. busy (sym (ap (λ (c : Component). c.cmd.h_component) same1) ∙ z))
              (ap (λ (c : Component). c.cmd.cmd) same1 ∙ e1)
              (ap (λ (c : Component). c.cmd.n_param) same1 ∙ e2),
        )
        (record {
          parts =
              put_cases (set_component p (record (m1.component p) { cmd = no_cmd }) m1) p _ t
                (rw (same_part_refl p) (ap (λ (c : Component). record c { cmd = no_cmd }) same))
                (λ q ne. rw ne (h.parts q));
          headers = h.headers;
          pending = refl;
        })
