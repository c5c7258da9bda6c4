-- ===== src/Omx/Wait.antt =====
-- Sending a command and waiting: when the wait ends, and what two commands under way do.
use omxtranscode.Base.{
  ℕ, ◌≡◌, refl, ap, ◌≢◌, true, false, ◌&&◌, List, [], ◌∷◌, arith, ◌==◌, if◌then◌else◌, Outcome, ok,
  exits, blocks, and_then,
}
use omxtranscode.External.{BufferFlags}
use omxtranscode.Omx.{
  IlCall, OmxCmd, Part, video_decode, image_fx, video_encode, EventType, event_error,
  event_cmd_complete, Delivery, send_command, Machine, same_part, set_component, Il, oerr,
}
use omxtranscode.PacketQueue.{Ptr}
use omxtranscode.Omx.Command.{
  no_cmd, deliver, omx_send_command_and_wait0, await, omx_send_command_and_wait1,
  omx_send_command_and_wait,
}

-- What one event means to a thread that waits for a command of `p`.
pub data Verdict : Type 0 where
  fatal completion other : Verdict

abbrev pub verdict_of : Part → OmxCmd → Part → EventType → ℕ → ℕ → Verdict
verdict_of p c t event_error d1 d2 = fatal
verdict_of p c t event_cmd_complete d1 d2 =
    if same_part t p && ((d1 == c.cmd) && (d2 == c.n_param)) then completion else other
verdict_of p c t _ d1 d2 = other

abbrev pub verdict : Part → OmxCmd → Delivery → Verdict
verdict p c d = verdict_of p c d.target d.e_event d.n_data1 d.n_data2

-- How the wait for the command `c` of `p` ends, from the events alone: with the first error event
-- or the first completion of that command on that component, or never.
pub data Ending : Type 0 where
  dies never : Ending
  completes : List Delivery → Ending

abbrev pub ending : Part → OmxCmd → List Delivery → Ending
ending p c [] = never
ending p c (d ∷ ds) =
    let later = ending p c ds in
    elim (verdict p c d) [ fatal ↦ dies | completion ↦ completes ds | other ↦ later ]

-- The delivery of an event, as the waiting thread sees it.
abbrev pub Delivered : Part → Machine → Verdict → Outcome (Unit {0} × Machine) → Type 0
Delivered p m fatal (exits n) = n ≡ 1
Delivered p m completion (ok (_, m')) = ((m'.component p).cmd ≡ no_cmd) × (m'.log ≡ m.log)
Delivered p m other (ok (_, m')) = ((m'.component p).cmd ≡ (m.component p).cmd) × (m'.log ≡ m.log)
Delivered _ _ _ _ = ⊥

pub same_part_refl : (p : Part) → same_part p p ≡ true
same_part_refl video_decode = refl
same_part_refl image_fx = refl
same_part_refl video_encode = refl

pub same_part-eq : (t p : Part) → same_part t p ≡ true → t ≡ p
same_part-eq video_decode video_decode h = refl
same_part-eq image_fx image_fx h = refl
same_part-eq video_encode video_encode h = refl
same_part-eq video_decode image_fx h = cc
same_part-eq video_decode video_encode h = cc
same_part-eq image_fx video_decode h = cc
same_part-eq image_fx video_encode h = cc
same_part-eq video_encode video_decode h = cc
same_part-eq video_encode image_fx h = cc

-- How the wait leaves the machine, in each of its endings.
abbrev pub Ended : Part → List IlCall → Ending → Outcome Machine → Type 0
Ended p log dies (exits n) = n ≡ 1
Ended p log never blocks = Unit {0}
Ended p log (completes rest) (ok m') =
    (m'.pending ≡ rest) × ((m'.component p).cmd ≡ no_cmd) × (m'.log ≡ log)
Ended _ _ _ _ = ⊥

-- The command that `omx_send_command_and_wait0` stores.
abbrev pub stored : Part → ℕ → ℕ → Ptr → Machine → OmxCmd
stored p cmd n_param p_cmd_data m = record {
  h_component = (m.component p).h;
  cmd = cmd;
  n_param = n_param;
  p_cmd_data = p_cmd_data;
}

abbrev pub SentAndEnded : Part → List IlCall → Ending → Outcome (Unit {0} × Machine) → Type 0
SentAndEnded p log dies (exits n) = n ≡ 1
SentAndEnded p log never blocks = Unit {0}
SentAndEnded p log (completes rest) (ok (_, m')) =
    (m'.pending ≡ rest) × ((m'.component p).cmd ≡ no_cmd) × (m'.log ≡ log)
SentAndEnded _ _ _ _ = ⊥

-- The machine after `omx_send_command_and_wait0`.
abbrev pub sent : Part → ℕ → ℕ → Ptr → Machine → Machine
sent p cmd n_param p_cmd_data m =
    record (set_component p (record (m.component p) { cmd = stored p cmd n_param p_cmd_data m })
      m) { log = send_command (m.component p).h cmd n_param ∷ m.log }

unit_end :
    (p : Part) (log : List IlCall) (e : Ending) (r : Outcome Machine)
    → Ended p log e r
    → SentAndEnded p log e (and_then r λ m. ok (tt, m))
unit_end p log dies (exits n) h = h
unit_end p log never blocks h = h
unit_end p log (completes rest) (ok m) h = h
unit_end p log e r h = absurd h

pub wait0-sent :
    (il : Il) (p : Part) (cmd n_param : ℕ) (p_cmd_data : Ptr) (m : Machine)
    → il m.log (send_command (m.component p).h cmd n_param) ≡ true
    → omx_send_command_and_wait0 il p cmd n_param p_cmd_data m
      ≡ ok (tt, sent p cmd n_param p_cmd_data m)
unfolding omx_send_command_and_wait0 oerr
wait0-sent il p cmd n_param p_cmd_data m accepted = ground (arith, same_part_refl p)

module _ (f : BufferFlags) where
  deliver-Delivered :
      (p t : Part) (e : EventType) (d1 d2 : ℕ) (m : Machine)
      → Delivered p m
          (verdict_of p (m.component p).cmd t e d1 d2)
          (deliver f (record { target = t; e_event = e; n_data1 = d1; n_data2 = d2 }) m)
  unfolding deliver
  deliver-Delivered p t event_error d1 d2 m = refl
  deliver-Delivered p t e d1 d2 m = ground (arith, same_part-eq t p)

  -- The wait is over once the command is cleared, whatever events are still to come.
  pub await-cleared :
      (p : Part) (ds : List Delivery) (m : Machine)
      → (m.component p).cmd.h_component ≡ 0
      → await f p ds m ≡ ok (record m { pending = ds })
  unfolding await
  await-cleared p [] m e = ground arith
  await-cleared p (d ∷ ds) m e = ground arith

  -- After the delivery of one event: the wait goes on exactly if that event is no ending.
  await_rest :
      (p : Part) (ds : List Delivery) (m : Machine) (v : Verdict) (r : Outcome (Unit {0} × Machine))
      → Delivered p m v r
      → ((m' : Machine)
          → (m'.component p).cmd ≡ (m.component p).cmd
          → m'.log ≡ m.log
          → Ended p m.log (ending p (m.component p).cmd ds) (await f p ds m'))
      → Ended p m.log
          (elim v [
            | fatal ↦ dies
            | completion ↦ completes ds
            | other ↦ ending p (m.component p).cmd ds
          ])
          (and_then r λ r. await f p ds r.1)
  await_rest p ds m fatal (exits n) h go = h
  await_rest p ds m completion (ok (u, m')) h go =
      rw (await-cleared p ds m' (ap (λ c. c.h_component) h.0)) (refl, h.0, h.1)
  await_rest p ds m other (ok (u, m')) h go = go m' h.0 h.1
  await_rest p ds m v r h go = absurd h

  await-Ended :
      (p : Part) (ds : List Delivery) (m : Machine)
      → (m.component p).cmd.h_component ≢ 0
      → Ended p m.log (ending p (m.component p).cmd ds) (await f p ds m)
  unfolding await
  await-Ended p [] m busy = ground arith
  await-Ended p (d ∷ ds) m busy =
      let test : ((m.component p).cmd.h_component == 0) ≡ false = ground arith in
      rw (test, await)
        (await_rest p ds m (verdict p (m.component p).cmd d) (deliver f d m)
          (deliver-Delivered p d.target d.e_event d.n_data1 d.n_data2 m)
          λ m' ec el. rw (← ec, ← el) (await-Ended p ds m' (rw ec busy)))

  pub await-Ended_at :
      (p : Part) (c : OmxCmd) (ds : List Delivery) (m : Machine)
      → (m.component p).cmd ≡ c
      → c.h_component ≢ 0
      → Ended p m.log (ending p c ds) (await f p ds m)
  await-Ended_at p c ds m e busy = rw (← e) (await-Ended p ds m (rw e busy))

  pub wait1-SentAndEnded :
      (p : Part) (c : OmxCmd) (cmd n_param : ℕ) (d : Ptr) (m : Machine)
      → (m.component p).cmd ≡ c
      → c.h_component ≢ 0
      → SentAndEnded p m.log (ending p c m.pending) (omx_send_command_and_wait1 f p cmd n_param d m)
  unfolding omx_send_command_and_wait1
  wait1-SentAndEnded p c cmd n_param d m e busy =
      unit_end p m.log (ending p c m.pending) (await f p m.pending m)
        (await-Ended_at p c m.pending m e busy)

  -- `omx_send_command_and_wait` on an initialised component, when OpenMAX accepts the command:
  -- it exits with status 1 if an error event of any component comes first, returns right after
  -- the first completion of exactly this command by this component, with the command cleared and
  -- the call logged once, and waits for ever if neither comes.
  pub send_command_and_wait-ending :
      (il : Il) (p : Part) (cmd n_param : ℕ) (p_cmd_data : Ptr) (m : Machine)
      → (m.component p).h ≢ 0
      → il m.log (send_command (m.component p).h cmd n_param) ≡ true
      → SentAndEnded p
          (send_command (m.component p).h cmd n_param ∷ m.log)
          (ending p (stored p cmd n_param p_cmd_data m) m.pending)
          (omx_send_command_and_wait f il p cmd n_param p_cmd_data m)
  unfolding omx_send_command_and_wait
  send_command_and_wait-ending il p cmd n_param p_cmd_data m live accepted =
      let m' = sent p cmd n_param p_cmd_data m in
      let e : (m'.component p).cmd ≡ stored p cmd n_param p_cmd_data m = rw (same_part_refl p) in
      rw (wait0-sent il p cmd n_param p_cmd_data m accepted)
        (wait1-SentAndEnded p (stored p cmd n_param p_cmd_data m) cmd n_param p_cmd_data m' e live)
