-- ===== src/Pcm/Queue/Laws.antt =====
-- crates/translator-audio/src/pcm.rs: the bounded queue against an unbounded list.
use mathlib.Core.Path.{ap₂}
use translator.Prelude.{
  ℕ, ◌+◌, ◌≤◌, ◌≡◌, refl, List, [], ◌∷◌, ◌++◌, arith, Option, none, some, Result, ok, err, leb,
  if◌then◌else◌,
}
use translator.Pcm.Frame.{PcmFrame}
use translator.Pcm.Queue.{BoundedPcmQueue, empty_queue, push, pop, clear, max_buffered_ms}

pub total_ms : List PcmFrame → ℕ
total_ms [] = 0
total_ms (f ∷ fs) = f.format.frame_duration_ms + total_ms fs

total_ms-append :
    (fs : List PcmFrame) (f : PcmFrame)
    → total_ms (fs ++ f ∷ []) ≡ total_ms fs + f.format.frame_duration_ms
unfolding total_ms
total_ms-append [] f = omega arith
total_ms-append (g ∷ fs) f = omega (arith, total_ms-append fs f)

pub data Call : Type 0 where
  pushes : PcmFrame → Call
  pops clears : Call

pub data Reply : Type 0 where
  pushed : Result (Unit {0}) PcmFrame → Reply
  popped : Option PcmFrame → Reply
  cleared : Reply

pub call : BoundedPcmQueue → Call → BoundedPcmQueue × Reply
call q (pushes f) = let (r, x) = push q f in (r, pushed x)
call q pops = let (r, x) = pop q in (r, popped x)
call q clears = (clear q, cleared)

pub replies : BoundedPcmQueue → List Call → List Reply
replies q [] = []
replies q (c ∷ cs) = (call q c).1 ∷ replies (call q c).0 cs

-- The specification: a plain list, with the oldest frame first, that takes a frame if the durations
-- then add up to at most 400 ms.
pub spec_call : List PcmFrame → Call → List PcmFrame × Reply
spec_call fs (pushes f) =
    if leb (total_ms fs + f.format.frame_duration_ms) 400
    then (fs ++ f ∷ [], pushed (ok tt))
    else (fs, pushed (err f))
spec_call [] pops = ([], popped none)
spec_call (f ∷ fs) pops = (fs, popped (some f))
spec_call fs clears = ([], cleared)

pub spec_replies : List PcmFrame → List Call → List Reply
spec_replies fs [] = []
spec_replies fs (c ∷ cs) = (spec_call fs c).1 ∷ spec_replies (spec_call fs c).0 cs

record Refines (q : BoundedPcmQueue) (fs : List PcmFrame) : Type 0 where
  same : q.frames ≡ fs
  counted : q.buffered_ms ≡ total_ms fs
  bounded : q.buffered_ms ≤ max_buffered_ms

call-Refines :
    (q : BoundedPcmQueue) (fs : List PcmFrame) (c : Call)
    → Refines q fs
    → ((call q c).1 ≡ (spec_call fs c).1) × Refines (call q c).0 (spec_call fs c).0
unfolding call spec_call push pop clear total_ms
call-Refines q fs (pushes f) v = ground (arith, total_ms-append fs f)
call-Refines q [] pops v = ground arith
call-Refines q (f ∷ fs) pops v = ground arith
call-Refines q fs clears v = ground arith

replies-Refines :
    (q : BoundedPcmQueue) (fs : List PcmFrame) (cs : List Call)
    → Refines q fs
    → replies q cs ≡ spec_replies fs cs
unfolding replies spec_replies
replies-Refines q fs [] v = refl
replies-Refines q fs (c ∷ cs) v =
    let (e, w) = call-Refines q fs c v in
    ap₂ ◌∷◌ e (replies-Refines (call q c).0 (spec_call fs c).0 cs w)

-- To its clients the bounded queue is the list of the specification: any calls on a new queue get the
-- same replies, the frames that are handed out and the refusals included.
pub replies-refine : (cs : List Call) → replies empty_queue cs ≡ spec_replies [] cs
unfolding empty_queue
replies-refine cs =
    replies-Refines empty_queue [] cs
      (unfold total_ms in record { same = refl; counted = refl; bounded = omega arith })
