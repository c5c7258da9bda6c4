-- ===== src/Omx/Signal.antt =====
-- What events leave in a component: the end-of-stream flag and the flag of changed port settings.
use omxtranscode.Base.{
  ℕ, ◌≡◌, refl, Bool, true, false, ◌&&◌, ◌||◌, List, [], ◌∷◌, arith, if◌then◌else◌, has_flag,
  Outcome, ok, exits, blocks, fault, and_then,
}
use omxtranscode.External.{BufferFlags}
use omxtranscode.Omx.{
  Part, EventType, event_error, event_port_settings_changed, event_buffer_flag, Delivery, Machine,
  same_part,
}
use omxtranscode.Omx.Command.{deliver}

-- Events in the order of their delivery.
pub deliver_all : BufferFlags → List Delivery → Machine → Outcome Machine
deliver_all f [] m = ok m
deliver_all f (d ∷ ds) m = and_then (deliver f d m) λ r. deliver_all f ds r.1

abbrev pub is_error : EventType → Bool
is_error event_error = true
is_error _ = false

abbrev pub is_eos : BufferFlags → EventType → ℕ → Bool
is_eos f event_buffer_flag d2 = has_flag d2 f.eos
is_eos f _ d2 = false

abbrev pub is_port_change : EventType → Bool
is_port_change event_port_settings_changed = true
is_port_change _ = false

abbrev pub some_event : (Delivery → Bool) → List Delivery → Bool
some_event test [] = false
some_event test (d ∷ ds) = test d || some_event test ds

module _ (f : BufferFlags) (p : Part) where
  abbrev pub ends_stream : Delivery → Bool
  ends_stream d = same_part d.target p && is_eos f d.e_event d.n_data2

  abbrev pub changes_port : Delivery → Bool
  changes_port d = same_part d.target p && is_port_change d.e_event

  abbrev pub fails : Delivery → Bool
  fails d = is_error d.e_event

  -- The two flags of `p` after events, from the flags before them.
  abbrev pub Flagged : (stops ends changes : Bool) → Machine → Outcome Machine → Type 0
  Flagged true ends changes m (exits n) = n ≡ 1
  Flagged false ends changes m (ok m') =
      ((m'.component p).eos ≡ (if ends then 1 else (m.component p).eos))
      × ((m'.component p).port_settings_changed
          ≡ (if changes then 1 else (m.component p).port_settings_changed))
  Flagged _ _ _ _ _ = ⊥

  deliver-Flagged :
      (t : Part) (e : EventType) (d1 d2 : ℕ) (m : Machine)
      → let d : Delivery = record { target = t; e_event = e; n_data1 = d1; n_data2 = d2 } in
        Flagged (fails d) (ends_stream d) (changes_port d) m (and_then (deliver f d m) λ r. ok r.1)
  unfolding deliver
  deliver-Flagged t event_error d1 d2 m = refl
  deliver-Flagged t e d1 d2 m = ground arith

  Flagged-trans :
      (stops b b' c c' : Bool) (m m' : Machine) (o : Outcome Machine)
      → Flagged false b c m (ok m')
      → Flagged stops b' c' m' o
      → Flagged stops (b || b') (c || c') m o
  Flagged-trans true b b' c c' m m' (exits n) h k = k
  Flagged-trans false b b' c c' m m' (ok m'') h k = ground arith
  Flagged-trans true b b' c c' m m' (ok o) h k = absurd k
  Flagged-trans stops b b' c c' m m' blocks h k = ground arith
  Flagged-trans stops b b' c c' m m' fault h k = ground arith
  Flagged-trans false b b' c c' m m' (exits n) h k = absurd k

  deliver_rest :
      (a a' b b' c c' : Bool) (m : Machine) (r : Outcome (Unit {0} × Machine))
      (rest : Machine → Outcome Machine)
      → Flagged a b c m (and_then r λ r. ok r.1)
      → ((m' : Machine) → Flagged a' b' c' m' (rest m'))
      → Flagged (a || a') (b || b') (c || c') m (and_then r λ r. rest r.1)
  deliver_rest true a' b b' c c' m (exits n) rest h k = h
  deliver_rest false a' b b' c c' m (ok (u, m')) rest h k =
      Flagged-trans a' b b' c c' m m' (rest m') h (k m')
  deliver_rest true a' b b' c c' m (ok r) rest h k = absurd h
  deliver_rest false a' b b' c c' m (exits n) rest h k = absurd h
  deliver_rest a a' b b' c c' m blocks rest h k = ground arith
  deliver_rest a a' b b' c c' m fault rest h k = ground arith

  -- After any events in a row, the process has exited with status 1 if one of them is an error.
  -- Otherwise the `eos` of a component is 1 if one of its events is a buffer flag event with the
  -- EOS bit, and else what it was; and its `port_settings_changed` is 1 if one of its events says
  -- so, and else what it was. Events of other components change neither.
  pub deliver_all-Flagged :
      (ds : List Delivery) (m : Machine)
      → Flagged
          (some_event fails ds)
          (some_event ends_stream ds)
          (some_event changes_port ds)
          m
          (deliver_all f ds m)
  unfolding deliver_all
  deliver_all-Flagged [] m = (refl, refl)
  deliver_all-Flagged (d ∷ ds) m =
      deliver_rest (fails d) (some_event fails ds) (ends_stream d) (some_event ends_stream ds)
        (changes_port d) (some_event changes_port ds) m (deliver f d m) (deliver_all f ds)
        (deliver-Flagged d.target d.e_event d.n_data1 d.n_data2 m) (deliver_all-Flagged ds)
