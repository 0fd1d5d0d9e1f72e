-- ===== src/Watchdog/Coordinator/Buffers.antt =====
-- crates/translator-daemon/src/provider_audio_watchdog.rs: what the receive buffers hold.
use translator.Prelude.{
  ℕ, ◌≡◌, ◌≤◌, ◌+◌, ◌-◌, refl, true, false, if◌then◌else◌, List, [], ◌∷◌, ◌++◌, Option, none, some,
  arith, subst, Bool,
}
use translator.Prelude.PairMap.{
  PairMap, same_pair, get_pair, insert_pair, remove_pair, get_pair-insert_pair,
  get_pair-remove_pair,
}
use translator.Watchdog.Coordinator.{
  BufferedFrame, ReceiveBuffer, buffer_or_empty, projected_ms, put_rest, pop_frame,
}

unfoldable pub total_ms : List BufferedFrame → ℕ
total_ms [] = 0
total_ms (f ∷ fs) = f.duration_ms + total_ms fs

-- The count of a buffer is that of its frames, at most 400 ms.
unfoldable pub BufferOk : Option ReceiveBuffer → Type 0
BufferOk none = Unit {0}
BufferOk (some b) = (b.buffered_ms ≡ total_ms b.frames) × (b.buffered_ms ≤ 400)

abbrev pub BuffersOk : PairMap ReceiveBuffer → Type 0
BuffersOk m = (key : ℕ × ℕ) → BufferOk (get_pair key m)

pub no_buffers-BuffersOk : BuffersOk []
unfolding BufferOk get_pair
no_buffers-BuffersOk key = tt

total_ms-++ :
    (fs : List BufferedFrame) (f : BufferedFrame)
    → total_ms (fs ++ f ∷ []) ≡ total_ms fs + f.duration_ms
unfolding total_ms
total_ms-++ [] f = omega arith
total_ms-++ (g ∷ fs) f = ground (arith, total_ms-++ fs f)

one_of :
    (b : Bool) (x y : Option ReceiveBuffer)
    → BufferOk x
    → BufferOk y
    → BufferOk (if b then x else y)
one_of true x y p q = p
one_of false x y p q = q

insert-BuffersOk :
    (key : ℕ × ℕ) (b : ReceiveBuffer) (m : PairMap ReceiveBuffer)
    → BufferOk (some b)
    → BuffersOk m
    → BuffersOk (insert_pair key b m)
insert-BuffersOk key b m o all j =
    rw (get_pair-insert_pair key j b m) (one_of (same_pair key j) (some b) (get_pair j m) o (all j))

pub remove-BuffersOk :
    (key : ℕ × ℕ) (m : PairMap ReceiveBuffer) → BuffersOk m → BuffersOk (remove_pair key m)
unfolding BufferOk
remove-BuffersOk key m all j =
    rw (get_pair-remove_pair key j m) (one_of (same_pair key j) none (get_pair j m) tt (all j))

or_empty-BufferOk : (b : Option ReceiveBuffer) → BufferOk b → BufferOk (some (buffer_or_empty b))
unfolding BufferOk total_ms
or_empty-BufferOk none o = (refl, omega arith)
or_empty-BufferOk (some b) o = o

-- A frame that is refused, and one that is taken.
pub refused-BuffersOk :
    (key : ℕ × ℕ) (m : PairMap ReceiveBuffer)
    → BuffersOk m
    → BuffersOk (insert_pair key (buffer_or_empty (get_pair key m)) m)
refused-BuffersOk key m all =
    insert-BuffersOk key (buffer_or_empty (get_pair key m)) m
      (or_empty-BufferOk (get_pair key m) (all key)) all

pushed-BufferOk :
    (b : ReceiveBuffer) (f : BufferedFrame) (projected : ℕ)
    → projected_ms b f.duration_ms ≡ some projected
    → BufferOk (some b)
    → BufferOk (some (record { frames = b.frames ++ f ∷ []; buffered_ms = projected }))
unfolding BufferOk projected_ms
pushed-BufferOk b f projected p o = ground (arith, total_ms-++ b.frames f)

pub pushed-BuffersOk :
    (key : ℕ × ℕ) (m : PairMap ReceiveBuffer) (f : BufferedFrame) (projected : ℕ)
    → projected_ms (buffer_or_empty (get_pair key m)) f.duration_ms ≡ some projected
    → BuffersOk m
    → BuffersOk (
        insert_pair key
          (record {
            frames = (buffer_or_empty (get_pair key m)).frames ++ f ∷ [];
            buffered_ms = projected;
          })
          m)
pushed-BuffersOk key m f projected p all =
    let b = buffer_or_empty (get_pair key m) in
    insert-BuffersOk key (record { frames = b.frames ++ f ∷ []; buffered_ms = projected }) m
      (pushed-BufferOk b f projected p (or_empty-BufferOk (get_pair key m) (all key))) all

popped-BufferOk :
    (b : ReceiveBuffer) (f : BufferedFrame) (rest : List BufferedFrame)
    → pop_frame b.frames ≡ some (f, rest)
    → BufferOk (some b)
    → BufferOk (some (record { frames = rest; buffered_ms = b.buffered_ms - f.duration_ms }))
unfolding BufferOk total_ms pop_frame
popped-BufferOk b f rest p o = ground arith

pub popped-BuffersOk :
    (key : ℕ × ℕ) (m : PairMap ReceiveBuffer) (b : ReceiveBuffer) (f : BufferedFrame)
    (rest : List BufferedFrame)
    → get_pair key m ≡ some b
    → pop_frame b.frames ≡ some (f, rest)
    → BuffersOk m
    → BuffersOk
        (put_rest key (record { frames = rest; buffered_ms = b.buffered_ms - f.duration_ms }) m)
unfolding put_rest
popped-BuffersOk key m b f [] g p all = remove-BuffersOk key m all
popped-BuffersOk key m b f (h ∷ rest) g p all =
    insert-BuffersOk key (record { frames = h ∷ rest; buffered_ms = b.buffered_ms - f.duration_ms })
      m (popped-BufferOk b f (h ∷ rest) p (subst BufferOk g (all key))) all
