-- ===== src/Registry/Promised.antt =====
-- What a caller may rely on: which pods are known, as a set, and what each call makes of it (registry.go).
use goto.Prelude.{ℕ, Bool, ◌&&◌, ◌||◌, not, List, [], ◌∷◌, Text, text_eq, ◌==◌}
use goto.Registry.{Peer}

-- The abstract registry: of which name and address there is a pod.
abbrev pub Known : Type 0
Known = Text → Text → Bool

abbrev pub with_known : Text → Text → Known → Known
with_known name address k n a = (name == n && address == a) || k n a

abbrev pub without_known : Text → Text → Known → Known
without_known name address k n a = not (name == n && address == a) && k n a

-- The calls that change the peers.
pub data Call : Type 0 where
  adds : ℕ → Peer → Call
  remembers : ℕ → Peer → Call
  removes : Text → Text → Call
  clears_epochs : Call

-- What they promise.
abbrev pub promised : Call → Known → Known
promised (adds now p) k = with_known p.name p.address k
promised (remembers now p) k = with_known p.name p.address k
promised (removes name address) k = without_known name address k
promised clears_epochs k = k

unfoldable pub all_promised : List Call → Known → Known
all_promised [] k = k
all_promised (c ∷ cs) k = all_promised cs (promised c k)
