-- ===== src/Framing/Drain.antt =====
-- The loop of `PtyFrameDecoder::push` and of `ControlLineDecoder::push`
-- (crates/hitch-proto/src/framing.rs): take items off the front of a buffer until none is complete.
pub mod Laws
use hitch.Prelude.{ℕ, zero, suc, List, [], ◌++◌, Bytes, length, Result, ok, err}

-- What one round of the loop does with the buffer: `break`, `return Err` with the bytes that are
-- left in the buffer, or items taken off (none of them for a blank control line).
pub data Round (E A : Type 0) : Type 0 where
  stop : Round E A
  fail : E → Bytes → Round E A
  taken : List A → Bytes → Round E A

module _ {E A : Type 0} (round : Bytes → Round E A) where
  -- With the items so far. An error loses them, as `?` and `return Err` drop the vector.
  unfoldable pub drain : ℕ → Bytes → List A → Result E (List A) × Bytes
  drain zero buffer items = (ok items, buffer)
  drain (suc fuel) buffer items = elim (round buffer) [
    | stop ↦ (ok items, buffer)
    | fail e rest ↦ (err e, rest)
    | taken more rest ↦ drain fuel rest (items ++ more)
  ]

  -- Each round that takes something shortens the buffer, so its length is fuel enough.
  abbrev pub drain_all : Bytes → Result E (List A) × Bytes
  drain_all buffer = drain (suc (length buffer)) buffer []
