-- ===== src/Probes/Counting.antt =====
-- The counts and the statuses of one probe over any number of calls (probes.go, middlewareFunc).
use goto.Prelude.{ℕ, zero, suc, ◌+◌, ◌*◌, ◌<◌, ◌≡◌, refl, arith, ltb, if◌then◌else◌, pos, negsuc}
use goto.Probes.{Probe, serve, u64}

-- The 64-bit counter and its 64-bit overflow counter, as one number.
abbrev pub total : Probe → ℕ
total p = p.overflow * u64 + p.count

pub total-serve :
    (p : Probe)
    → p.count < u64
    → total p + 1 < u64 * u64
    → (total (serve p) ≡ total p + 1) × ((serve p).count < u64)
unfolding serve
total-serve p h k = ground arith

unfoldable pub calls : ℕ → Probe → Probe
calls zero p = p
calls (suc k) p = calls k (serve p)

-- After k calls the two counters have gone up by k together, as long as they fit their 128 bits.
total-calls :
    (k : ℕ) (p : Probe)
    → p.count < u64
    → total p + k < u64 * u64
    → (total (calls k p) ≡ total p + k) × ((calls k p).count < u64)
unfolding calls
total-calls zero p h fits = ground arith
total-calls (suc k) p h fits = ground (arith, total-serve p, total-calls k (serve p))

status-serve :
    (p : Probe) (n : ℕ)
    → p.remaining ≡ pos (suc (suc n))
    → ((serve p).status ≡ p.status) × ((serve p).remaining ≡ pos (suc n))
unfolding serve
status-serve p n e = ground arith

status-serve_last :
    (p : Probe)
    → p.remaining ≡ pos 1
    → ((serve p).status ≡ pos 200) × ((serve p).remaining ≡ negsuc 0)
unfolding serve
status-serve_last p e = ground arith

status-serve_idle :
    (p : Probe) (m : ℕ)
    → p.remaining ≡ negsuc m
    → ((serve p).status ≡ p.status) × ((serve p).remaining ≡ negsuc m)
unfolding serve
status-serve_idle p m e = ground arith

pub status-calls_idle :
    (k m : ℕ) (p : Probe) → p.remaining ≡ negsuc m → (calls k p).status ≡ p.status
unfolding calls
status-calls_idle zero m p e = refl
status-calls_idle (suc k) m p e =
    ground (arith, status-serve_idle p m e, status-calls_idle k m (serve p))

-- A status that was set for n calls is answered to n calls, and 200 to all later ones.
pub status-calls :
    (k n : ℕ) (p : Probe)
    → p.remaining ≡ pos (suc n)
    → (calls k p).status ≡ (if ltb k (suc n) then p.status else pos 200)
unfolding calls
status-calls zero n p e = ground arith
status-calls (suc k) zero p e =
    ground (arith, status-serve_last p e, status-calls_idle k 0 (serve p))
status-calls (suc k) (suc n) p e = ground (arith, status-serve p n e, status-calls k n (serve p))
