-- ===== src/Node/Runs.antt =====
-- Runs of a node, one after the other.
use pbft_block.Common.{ℕ, ◌≡◌, refl, sym, List, [], ◌∷◌, ◌++◌}
use mathlib.Core.List.{append_assoc}
use pbft_block.Worker.{Worker}
use pbft_block.Node.{Event, handle, run, sent}

pub run-append : (w : Worker) (es fs : List (ℕ × Event)) → run w (es ++ fs) ≡ run (run w es) fs
unfolding run
run-append w [] fs = refl
run-append w ((now, e) ∷ es) fs = run-append (handle now e w).node es fs

pub sent-append :
    (w : Worker) (es fs : List (ℕ × Event)) → sent w (es ++ fs) ≡ sent w es ++ sent (run w es) fs
unfolding run sent
sent-append w [] fs = refl
sent-append w ((now, e) ∷ es) fs = rw (sent-append (handle now e w).node es fs) (
    sym (
      append_assoc (handle now e w).effects (sent (handle now e w).node es)
        (sent (run (handle now e w).node es) fs)))
