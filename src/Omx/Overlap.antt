-- ===== src/Omx/Overlap.antt =====
-- Two commands of one component under way at once, as `decode_thread` of encode.c sends them.
use omxtranscode.Base.{
  ℕ, ◌≡◌, refl, ap, ◌≢◌, true, List, [], ◌∷◌, arith, ◌==◌, Bool-cases, Outcome, ok, exits, blocks,
  fault, and_then, ◌>>◌, inl, inr,
}
use omxtranscode.External.{BufferFlags}
use omxtranscode.PacketQueue.{Ptr}
use omxtranscode.Omx.{IlCall, OmxCmd, send_command, Part, Delivery, Machine, Il}
use omxtranscode.Omx.Command.{
  deliver, await, omx_send_command_and_wait0, omx_send_command_and_wait1,
}
use omxtranscode.Omx.Wait.{
  ending, stored, sent, SentAndEnded, wait1-SentAndEnded, await-cleared, wait0-sent, same_part_refl,
}

module _ (f : BufferFlags) where
  -- A wait that returns leaves no command.
  abbrev IsCleared : Part → Outcome Machine → Type 0
  IsCleared p (ok m) = (m.component p).cmd.h_component ≡ 0
  IsCleared p _ = Unit {0}

  IsCleared-bind :
      (p : Part) (r : Outcome (Unit {0} × Machine)) (k : Machine → Outcome Machine)
      → ((m : Machine) → IsCleared p (k m))
      → IsCleared p (and_then r λ r. k r.1)
  IsCleared-bind p (ok (u, m)) k h = h m
  IsCleared-bind p (exits n) k h = tt
  IsCleared-bind p blocks k h = tt
  IsCleared-bind p fault k h = tt

  await-IsCleared : (p : Part) (ds : List Delivery) (m : Machine) → IsCleared p (await f p ds m)
  unfolding await
  await-IsCleared p [] m = ground arith
  await-IsCleared p (d ∷ ds) m = elim (Bool-cases ((m.component p).cmd.h_component == 0)) [
    | inl idle ↦ rw (idle, await) (ground arith)
    | inr busy ↦
        rw (busy, await) (IsCleared-bind p (deliver f d m) (await f p ds) (await-IsCleared p ds))
  ]

  wait_again :
      (p : Part) (r : Outcome Machine)
      → IsCleared p r
      → and_then {A = Unit {0} × Machine}
          (and_then r λ m. ok (tt, m))
          (λ s. and_then (await f p s.1.pending s.1) λ m. ok (tt, m))
        ≡ and_then {B = Unit {0} × Machine} r (λ m. ok (tt, m))
  wait_again p (ok m) h = rw (await-cleared f p m.pending m h)
  wait_again p (exits n) h = refl
  wait_again p blocks h = refl
  wait_again p fault h = refl

  -- Whatever commands they are called for, a second wait on a component returns at once.
  pub wait1-wait1 :
      (p : Part) (cmd n_param : ℕ) (d : Ptr) (cmd' n_param' : ℕ) (d' : Ptr) (m : Machine)
      → (omx_send_command_and_wait1 f p cmd n_param d
            >> omx_send_command_and_wait1 f p cmd' n_param' d')
          m
        ≡ omx_send_command_and_wait1 f p cmd n_param d m
  unfolding omx_send_command_and_wait1
  wait1-wait1 p cmd n_param d cmd' n_param' d' m =
      wait_again p (await f p m.pending m) (await-IsCleared p m.pending m)

  both_waits :
      (p : Part) (c : OmxCmd) (cmd n_param cmd' n_param' : ℕ) (m : Machine) (log : List IlCall)
      → m.log ≡ log
      → (m.component p).cmd ≡ c
      → c.h_component ≢ 0
      → SentAndEnded p log (ending p c m.pending) (
          (omx_send_command_and_wait1 f p cmd n_param 0
              >> omx_send_command_and_wait1 f p cmd' n_param' 0)
            m)
  both_waits p c cmd n_param cmd' n_param' m log el e busy =
      rw (← el, wait1-wait1 p cmd n_param 0 cmd' n_param' 0 m)
        (wait1-SentAndEnded f p c cmd n_param 0 m e busy)

  -- A component that is sent the command `a` and then the command `b`, and is waited for with `b`
  -- and then with `a`: all four calls together end as the wait for `b` alone does. So they return
  -- right after the first completion of `b`, whether or not `a` has completed, and if only `a`
  -- completes they never return.
  pub overlapping_waits :
      (il : Il) (p : Part) (cmd_a param_a cmd_b param_b : ℕ) (m : Machine)
      → (m.component p).h ≢ 0
      → il m.log (send_command (m.component p).h cmd_a param_a) ≡ true
      → il
          (send_command (m.component p).h cmd_a param_a ∷ m.log)
          (send_command (m.component p).h cmd_b param_b)
        ≡ true
      → SentAndEnded p
          (send_command (m.component p).h cmd_b param_b
            ∷ send_command (m.component p).h cmd_a param_a
            ∷ m.log)
          (ending p (stored p cmd_b param_b 0 m) m.pending)
          ((omx_send_command_and_wait0 il p cmd_a param_a 0
              >> (omx_send_command_and_wait0 il p cmd_b param_b 0
                  >> (omx_send_command_and_wait1 f p cmd_b param_b 0
                      >> omx_send_command_and_wait1 f p cmd_a param_a 0)))
            m)
  overlapping_waits il p cmd_a param_a cmd_b param_b m live ok_a ok_b =
      let m1 = sent p cmd_a param_a 0 m in
      let m2 = sent p cmd_b param_b 0 m1 in
      let h1 : (m1.component p).h ≡ (m.component p).h = rw (same_part_refl p) in
      let c2 : (m2.component p).cmd ≡ stored p cmd_b param_b 0 m = rw (same_part_refl p) in
      rw (wait0-sent il p cmd_a param_a 0 m ok_a, wait0-sent il p cmd_b param_b 0 m1 (rw h1 ok_b))
        (both_waits p (stored p cmd_b param_b 0 m) cmd_b param_b cmd_a param_a m2 _
          (ap (λ h. send_command h cmd_b param_b ∷ m1.log) h1) c2 live)
