-- ===== src/Terminal/Scrollback.antt =====
-- `ScrollbackBuffer` of crates/hitch-pty/src/lib.rs. The lock is not modelled: each call holds it
-- from the first read of the bytes to the last write, and no call panics under it.
pub mod Latest
use hitch.Prelude.{
  ℕ, ◌+◌, ◌-◌, ◌*◌, Bool, true, false, ◌||◌, [], ◌∷◌, ◌++◌, Bytes, leb, ◌==◌, if◌then◌else◌, length,
  drop,
}

abbrev pub default_scrollback_capacity : ℕ
default_scrollback_capacity = 1024 * 1024

pub record ScrollbackBuffer : Type 0 where
  pub capacity : ℕ
  pub bytes : Bytes

abbrev pub new : ℕ → ScrollbackBuffer
new capacity = record { capacity = capacity; bytes = [] }

is_empty : Bytes → Bool
is_empty [] = true
is_empty (_ ∷ _) = false

-- `chunk[n..]` is `drop`, and so are `n` calls of `pop_front`, which do nothing on an empty queue.
unfoldable pub append : ScrollbackBuffer → Bytes → ScrollbackBuffer
unfolding is_empty
append b chunk =
    if b.capacity == 0 || is_empty chunk
    then b
    else if leb b.capacity (length chunk)
    then record b { bytes = drop (length chunk - b.capacity) chunk }
    else record b { bytes = drop (length b.bytes + length chunk - b.capacity) b.bytes ++ chunk }

abbrev pub snapshot : ScrollbackBuffer → Bytes
snapshot b = b.bytes
