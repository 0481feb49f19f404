-- ===== src/Processor/Workers/Safe.antt =====
-- No order of the workers' steps makes one of them write past the end of a header's buffer, where the
-- length of the request is in range from the start.
use tcphandoff.Common.{ℕ, ◌<◌, ◌≡◌, refl, ◌∙◌, inl, inr, List, [], ◌∷◌, ◌==◌, Bool-cases, done}
use tcphandoff.Http.{max_input_size}
use tcphandoff.Poll.{update}
use tcphandoff.Processor.Workers.{
  Shared, Workers, Turn, turn, turns, starting, turn_lem, turns-turn,
}
use tcphandoff.Processor.Workers.Read.{HasSized}
use tcphandoff.Processor.Workers.Step.{IsFit, IsFit-mono, Fits, step-Stepped}

record IsSafe (w : Workers) : Type 0 where
  short : w.shared.hdrlen < max_input_size
  sized : HasSized w.shared w.shared.hdr
  fit : (i : ℕ) → IsFit w.shared (w.doing i)

turn-IsSafe :
    (w : Workers) (t : Turn)
    → IsSafe w
    → Fits (w.doing t.worker) t.memory t.received
    → (w' : Workers) × (turn w t ≡ done w') × IsSafe w'
turn-IsSafe w t safe room =
    let (r, e, k, fit) =
      step-Stepped t.memory t.received w.shared (w.doing t.worker) safe.short safe.sized
        (safe.fit t.worker) room in
    (
      record { shared = r.0; doing = update w.doing t.worker r.1 },
      turn_lem w t (w.doing t.worker) r refl e,
      record {
        short = k.short;
        sized = k.sized;
        fit = λ i. elim (Bool-cases (t.worker == i)) [
          | inl y ↦ rw y fit
          | inr n ↦ rw n (IsFit-mono (w.doing i) w.shared r.0 k.sizes k.has (safe.fit i))
        ];
      },
    )

-- Each read delivers at most what there is room for behind its worker's `iov_base`, and `kzalloc` has memory for
-- each new header.
abbrev pub AllFit : List Turn → Workers → Type 0
AllFit [] w = Unit
AllFit (t ∷ ts) w =
    Fits (w.doing t.worker) t.memory t.received
    × ((w' : Workers) → turn w t ≡ done w' → AllFit ts w')

turns-IsSafe :
    (ts : List Turn) (w : Workers)
    → IsSafe w
    → AllFit ts w
    → (w' : Workers) × (turns ts w ≡ done w') × IsSafe w'
unfolding turns
turns-IsSafe [] w safe room = (w, refl, safe)
turns-IsSafe (t ∷ ts) w safe room =
    let (w1, e, safe1) = turn-IsSafe w t safe room.0 in
    let (w', q, safe') = turns-IsSafe ts w1 safe1 (room.1 w1 e) in
    (w', turns-turn w t ts w1 e ∙ q, safe')

-- However many workers read for one connection, and however their steps follow each other, one worker after
-- the other as the kernel's queue has it or at the same time, none of them writes past the end of a header's buffer or through NULL: the length of the
-- request stays below `MAX_INPUT_SIZE`, and the buffer of its header keeps its size. The length is in
-- that range from the start, also where there is no header yet, the header that is there has its size,
-- each read delivers at most what there is room for behind its `iov_base`, and `kzalloc` never returns NULL.
pub turns_in_bounds :
    (ts : List Turn) (s : Shared)
    → s.hdrlen < max_input_size
    → HasSized s s.hdr
    → AllFit ts (starting s)
    → (w : Workers) × (turns ts (starting s) ≡ done w)
      × (w.shared.hdrlen < max_input_size)
      × HasSized w.shared w.shared.hdr
turns_in_bounds ts s short sized room =
    let (w, e, safe) =
      turns-IsSafe ts (starting s) (record { short = short; sized = sized; fit = λ i. tt }) room in
    (w, e, safe.short, safe.sized)
