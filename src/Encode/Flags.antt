-- ===== src/Encode/Flags.antt =====
-- The flags of an input buffer, read back.
use omxtranscode.Base.{
  ℕ, ◌≡◌, ◌≢◌, ◌∙◌, refl, Bool, true, false, not, arith, ◌==◌, if◌then◌else◌, bit_and, bit_or,
  has_flag, and_self, has_flag-bit_or_self, has_flag-bit_or_other,
}
use omxtranscode.External.{BufferFlags, AreBits}
use omxtranscode.PacketQueue.{Packet}
use omxtranscode.Encode.{input_flags}

apart : (word flag : ℕ) → bit_and word flag ≡ 0 → has_flag word flag ≡ false
unfolding has_flag
apart word flag e = ground (arith, e)

itself : (flag : ℕ) → flag ≢ 0 → has_flag flag flag ≡ true
unfolding has_flag
itself flag some_bit = ground (arith, and_self flag flag (omega arith))

-- `f |= flag` if `b`, tested for `flag` and for another flag.
or_if :
    (b : Bool) (word flag : ℕ)
    → flag ≢ 0
    → has_flag word flag ≡ false
    → has_flag (if b then bit_or word flag else word) flag ≡ b
or_if true word flag some_bit e = has_flag-bit_or_self word flag some_bit
or_if false word flag some_bit e = e

or_if_other :
    (b : Bool) (word flag other : ℕ)
    → bit_and flag other ≡ 0
    → has_flag (if b then bit_or word flag else word) other ≡ has_flag word other
or_if_other true word flag other e = has_flag-bit_or_other word flag other e
or_if_other false word flag other e = refl

module _ (f : BufferFlags) (bits : AreBits f) where
  -- The word before the flag of a key frame.
  start_word : ℕ → ℕ
  start_word first = if first == 0 then f.time_unknown else f.starttime

  start-starttime : (first : ℕ) → has_flag (start_word first) f.starttime ≡ not (first == 0)
  unfolding start_word
  start-starttime first = ground (
    arith,
    apart f.time_unknown f.starttime bits.time_unknown-starttime,
    itself f.starttime bits.some_starttime,
  )

  start-syncframe : (first : ℕ) → has_flag (start_word first) f.syncframe ≡ false
  unfolding start_word
  start-syncframe first = ground (
    arith,
    apart f.time_unknown f.syncframe bits.time_unknown-syncframe,
    apart f.starttime f.syncframe bits.starttime-syncframe,
  )

  start-endofframe : (first : ℕ) → has_flag (start_word first) f.endofframe ≡ false
  unfolding start_word
  start-endofframe first = ground (
    arith,
    apart f.time_unknown f.endofframe bits.time_unknown-endofframe,
    apart f.starttime f.endofframe bits.starttime-endofframe,
  )

  -- If the flags are bits of their own, then the flags of an input buffer have
  -- `OMX_BUFFERFLAG_STARTTIME` exactly if `first_packet` was set, `OMX_BUFFERFLAG_SYNCFRAME` exactly
  -- for a key frame, and `OMX_BUFFERFLAG_ENDOFFRAME` exactly if no bytes of the packet are left.
  pub input_flags-read :
      (key : ℕ) (p : Packet) (first bytes_left : ℕ)
      → let word = input_flags f key p first bytes_left in
        (has_flag word f.starttime ≡ not (first == 0))
        × (has_flag word f.syncframe ≡ has_flag p.flags key)
        × (has_flag word f.endofframe ≡ (bytes_left == 0))
  unfolding input_flags start_word
  input_flags-read key p first bytes_left =
      let sync =
        if has_flag p.flags key then bit_or (start_word first) f.syncframe else start_word first in
      (
        or_if_other (bytes_left == 0) sync f.endofframe f.starttime bits.endofframe-starttime
            ∙ or_if_other (has_flag p.flags key) (start_word first) f.syncframe f.starttime
                bits.syncframe-starttime
            ∙ start-starttime first,
        or_if_other (bytes_left == 0) sync f.endofframe f.syncframe bits.endofframe-syncframe
            ∙ or_if (has_flag p.flags key) (start_word first) f.syncframe bits.some_syncframe
                (start-syncframe first),
        or_if (bytes_left == 0) sync f.endofframe bits.some_endofframe (
            or_if_other (has_flag p.flags key) (start_word first) f.syncframe f.endofframe
              bits.syncframe-endofframe
            ∙ start-endofframe first),
      )
