-- ===== src/Processor/Workers/Examples.antt =====
-- Two workers at concrete requests.
use tcphandoff.Common.{ℕ, ◌<◌, ◌≡◌, refl, subst, none, some, List, [], ◌∷◌, arith, done, fault, got}
use tcphandoff.Http.{HttpRequest, max_input_size, http_header_alloc}
use tcphandoff.Poll.{update}
use tcphandoff.Processor.Workers.{Shared, Workers, Turn, turn, turns, starting, step, begins, reads}
use tcphandoff.Processor.Workers.Safe.{AllFit, turns_in_bounds}
use tcphandoff.Processor.Workers.Read.{HasSized, fresh}
use tcphandoff.Processor.Workers.Lost.{reading}
use tcphandoff.Processor.Workers.Fresh.{uninitialised_length}

-- A header that is empty yet.
abbrev empty_header : Shared
empty_header = record { hdr = some 7; hdrlen = 0; header = λ p. http_header_alloc }

-- No header, and a length from memory that is not cleared.
abbrev uncleared : Shared
uncleared = record { hdr = none; hdrlen = 0xffff; header = λ p. http_header_alloc }

abbrev get : List ℕ
get = 71 ∷ 69 ∷ 84 ∷ []

abbrev path : List ℕ
path = 32 ∷ 47 ∷ []

uninitialised_length_example :
    turns
      (record { worker = 0; memory = some 7; received = got get }
        ∷ record { worker = 0; memory = some 7; received = got get }
        ∷ record { worker = 1; memory = some 7; received = got path }
        ∷ record { worker = 1; memory = some 7; received = got path }
        ∷ [])
      (starting uncleared)
    ≡ fault
uninitialised_length_example =
    uninitialised_length uncleared 0 1 7 (got get) path [] refl refl (omega arith)

abbrev blank : HttpRequest
blank = record { hdr = none; hdrlen = 0; body = none; bodylen = 0 }

AllFit-turn :
    (ts : List Turn) (w w1 : Workers) (t : Turn)
    → turn w t ≡ done w1
    → AllFit ts w1
    → (w' : Workers) → turn w t ≡ done w'
    → AllFit ts w'
AllFit-turn ts w w1 t e a w' e' = subst (AllFit ts) (same) a
  where
    same : w1 ≡ w'
    same = cc (e, e')

abbrev one_begun : Workers
one_begun = record { shared = empty_header; doing = update (λ i. begins) 0 (reads 7 0) }

abbrev both_begun : Workers
both_begun = record { shared = empty_header; doing = update (one_begun.doing) 1 (reads 7 0) }

-- Both workers take their place, and the first one reads.
sample-AllFit : AllFit (reading 0 get ∷ reading 1 path ∷ reading 0 get ∷ []) (starting empty_header)
unfolding turn step
sample-AllFit = (
  tt,
  AllFit-turn (reading 1 path ∷ reading 0 get ∷ []) (starting empty_header) one_begun
      (reading 0 get) refl
      (
        tt,
        AllFit-turn (reading 0 get ∷ []) one_begun both_begun (reading 1 path) refl
            (omega arith, λ w e. tt),
      ),
)

turns_in_bounds_example :
    (w : Workers) × (turns
        (reading 0 get ∷ reading 1 path ∷ reading 0 get ∷ [])
        (starting empty_header)
      ≡ done w)
    × (w.shared.hdrlen < max_input_size)
    × HasSized w.shared w.shared.hdr
turns_in_bounds_example =
    turns_in_bounds (reading 0 get ∷ reading 1 path ∷ reading 0 get ∷ []) empty_header (omega arith)
      fresh sample-AllFit
