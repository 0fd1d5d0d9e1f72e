-- ===== src/DebugText.antt =====
-- crates/translator-daemon/src/debug.rs: `DebugTextBuffer`, the recognised and translated texts that are
-- kept for debugging, oldest first. A text is its UTF-8 bytes; their lengths add up within a usize.
pub mod Bounds
pub mod Oldest
use translator.Prelude.{
  ℕ, ◌+◌, ◌-◌, Bool, true, false, not, ◌||◌, ltb, leb, if◌then◌else◌, List, [], ◌∷◌, ◌++◌, length,
  u64,
}

abbrev pub max_debug_text_events : ℕ
max_debug_text_events = 200

abbrev pub max_debug_text_bytes : ℕ
max_debug_text_bytes = 1048576

pub record DebugTextEvent : Type 0 where
  pub transcript : List ℕ
  pub translation : List ℕ

unfoldable pub bytes : DebugTextEvent → ℕ
bytes e = length e.transcript + length e.translation

pub record DebugTextBuffer : Type 0 where
  pub enabled : Bool
  pub events : List DebugTextEvent
  pub bytes_used : ℕ

pub record DebugTextStatus : Type 0 where
  pub enabled : Bool
  pub event_count : ℕ
  pub bytes_used : ℕ

unfoldable pub empty_buffer : DebugTextBuffer
empty_buffer = record { enabled = false; events = []; bytes_used = 0 }

unfoldable pub clear : DebugTextBuffer → DebugTextBuffer
clear b = record b { events = []; bytes_used = 0 }

unfoldable pub set_enabled : DebugTextBuffer → Bool → DebugTextBuffer
unfolding clear
set_enabled b enabled =
    let b' = record b { enabled = enabled } in if not enabled then clear b' else b'

-- The condition of the loop, for an event of so many bytes.
unfoldable pub is_full : List DebugTextEvent → ℕ → ℕ → Bool
is_full events used event_bytes =
    leb max_debug_text_events (length events) || ltb max_debug_text_bytes (used + event_bytes)

-- `-=` on a usize, as a release build does it.
abbrev pub wrapping_sub : ℕ → ℕ → ℕ
wrapping_sub a b = u64 (a + 18446744073709551616 - b)

-- The `while` loop: the events that stay, and their bytes.
unfoldable pub evict : List DebugTextEvent → ℕ → ℕ → List DebugTextEvent × ℕ
unfolding is_full bytes
evict [] used event_bytes = ([], used)
evict (e ∷ es) used event_bytes =
    let rest = evict es (wrapping_sub used (bytes e)) event_bytes in
    if is_full (e ∷ es) used event_bytes then rest else (e ∷ es, used)

unfoldable pub push : DebugTextBuffer → DebugTextEvent → DebugTextBuffer × Bool
unfolding evict bytes
push b event =
    if not b.enabled
    then (b, false)
    else if ltb max_debug_text_bytes (bytes event)
    then (b, false)
    else (let (events, used) = evict b.events b.bytes_used (bytes event) in
        (record b { events = events ++ event ∷ []; bytes_used = used + bytes event }, true))

unfoldable pub safe_status : DebugTextBuffer → DebugTextStatus
safe_status b = record {
  enabled = b.enabled;
  event_count = length b.events;
  bytes_used = b.bytes_used;
}
