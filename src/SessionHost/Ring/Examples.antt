-- ===== src/SessionHost/Ring/Examples.antt =====
-- A ring of four bytes, and three pieces of output.
use geneza.Base.{true, false, List, [], ◌∷◌, bytes, arith}
use geneza.Base.Int.{pos}
use geneza.SessionHost.Ring.{Ring, Output, new_ring, feed, delta_from}
use geneza.SessionHost.Ring.Retention.{Retains, chunks_from, feed-Retains}
use geneza.SessionHost.Ring.Replay.{Replays, delta_from-feed}

abbrev three_pieces : List Output
three_pieces = (false, bytes "ab") ∷ (true, bytes "cd") ∷ (false, bytes "ef") ∷ []

abbrev one_chunk : Ring
one_chunk = record {
  budget = 2;
  size = 2;
  chunks = record { seq = 1; stderr = false; payload = bytes "ab" } ∷ [];
}

feed-Retains_example :
    let r = feed (new_ring (pos 4)) 0 three_pieces in
    Retains r.budget (chunks_from 0 three_pieces) r.size r.chunks
feed-Retains_example = feed-Retains (pos 4) three_pieces (omega arith)

delta_from-feed_example :
    let r = feed (new_ring (pos 4)) 0 three_pieces in
    Replays (chunks_from 0 three_pieces) r.chunks 1 (delta_from r 1 3)
delta_from-feed_example = delta_from-feed (pos 4) three_pieces 1 (omega arith)
