-- ===== src/Common/Reads.antt =====
-- What a read from a socket delivers, and how it is written into a buffer.
use Prim.Native.Nat.{ℕ, ◌+◌}
use mathlib.Core.List.{List, ◌++◌}
use mathlib.Core.Option.{Option, none, some}
use tcphandoff.Common.Tests.{leb, if◌then◌else◌}
use tcphandoff.Common.Lists.{length, take, drop}

-- The bytes that a read delivers, or the number of its error.
pub data Received : Type 0 where
  got : List ℕ → Received
  failed : ℕ → Received

-- `bytes` written at an offset of the buffer; `none` if they do not fit.
unfoldable pub write_at : ℕ → List ℕ → List ℕ → Option (List ℕ)
write_at i bytes buffer =
    if leb (i + length bytes) (length buffer)
    then some (take i buffer ++ (bytes ++ drop (i + length bytes) buffer))
    else none
