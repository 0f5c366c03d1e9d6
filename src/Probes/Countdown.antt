-- ===== src/Probes/Countdown.antt =====
-- From the handler that sets a readiness status to the calls that it answers (probes.go).
use goto.Prelude.{
  ℕ, zero, suc, ◌≡◌, refl, arith, true, some, List, ◌∷◌, if◌then◌else◌, ltb, ℤ, pos, text_eq,
  eq_refl, ◌∙◌, sym, ap,
}
use goto.Params.Mux.{Request, get_status_param}
use goto.Params.Port.{port}
use goto.Probes.{
  PortProbes, Probe, readiness, ProbesByPort, port_probes, middleware_func, set_probe_status,
  is_readiness_probe, serve, assign_status,
}
use goto.Probes.Counting.{calls, status-calls}
use goto.Probes.Serving.{middleware-readiness, status_of}
use goto.Probes.Setting.{named_type, set_probe_status_sets}

-- k calls of one URI.
pub serve_times : ℕ → Request → ProbesByPort → ProbesByPort
serve_times zero r s = s
serve_times (suc k) r s = (middleware_func r (serve_times k r s)).0

uri-serve : (p : Probe) → (serve p).uri ≡ p.uri
unfolding serve
uri-serve p = ground arith

calls-serve : (k : ℕ) (p : Probe) → calls k (serve p) ≡ serve (calls k p)
unfolding calls
calls-serve zero p = refl
calls-serve (suc k) p = calls-serve k (serve p)

uri-calls : (k : ℕ) (p : Probe) → (calls k p).uri ≡ p.uri
unfolding calls
uri-calls zero p = refl
uri-calls (suc k) p = uri-calls k (serve p) ∙ uri-serve p

abbrev readiness_of : Request → ProbesByPort → Probe
readiness_of r s = (port_probes (port r) s).readiness

still_readiness :
    (k : ℕ) (r : Request) (s t : ProbesByPort)
    → is_readiness_probe r (port_probes (port r) s) ≡ true
    → readiness_of r t ≡ calls k (readiness_of r s)
    → is_readiness_probe r (port_probes (port r) t) ≡ true
unfolding is_readiness_probe
still_readiness k r s t h e = rw (e, uri-calls) h

readiness-middleware :
    (r : Request) (s : ProbesByPort)
    → is_readiness_probe r (port_probes (port r) s) ≡ true
    → readiness_of r (middleware_func r s).0 ≡ serve (readiness_of r s)
readiness-middleware r s h = ground (arith, middleware-readiness r s (port r) h, eq_refl (port r))

serve_times-calls :
    (k : ℕ) (r : Request) (s : ProbesByPort)
    → is_readiness_probe r (port_probes (port r) s) ≡ true
    → readiness_of r (serve_times k r s) ≡ calls k (readiness_of r s)
unfolding serve_times calls
serve_times-calls zero r s h = refl
serve_times-calls (suc k) r s h =
    let ih = serve_times-calls k r s h in
    readiness-middleware r (serve_times k r s) (still_readiness k r s (serve_times k r s) h ih)
    ∙ ap serve ih
    ∙ sym (calls-serve k (readiness_of r s))

-- After a readiness status was set for n calls, the call that k others came before is answered with
-- it if k < n, and with 200 from then on.
countdown :
    (r : Request) (s : ProbesByPort) (n k : ℕ)
    → is_readiness_probe r (port_probes (port r) s) ≡ true
    → (readiness_of r s).remaining ≡ pos (suc n)
    → status_of (middleware_func r (serve_times k r s)).1
      ≡ some (if ltb k (suc n) then (readiness_of r s).status else pos 200)
countdown r s n k h e =
    let same = serve_times-calls k r s h in
    (middleware-readiness r (serve_times k r s) (port r)
      (still_readiness k r s (serve_times k r s) h same)).1
    ∙ ap (λ (p : Probe). some p.status) same
    ∙ ap some (status-calls k n (readiness_of r s) e)

-- After /probes/readiness/set/status=c:n with c > 0 and n > 0, for a request q to that port
-- which is a readiness call: the call that k others came before is answered with c if k < n,
-- and with 200 from then on.
pub readiness_countdown :
    (r q : Request) (s : ProbesByPort) (c n k : ℕ) (cs : List ℤ)
    → named_type r ≡ readiness
    → get_status_param r
      ≡ record { statuses = pos (suc c) ∷ cs; times = pos (suc n); present = true }
    → port r ≡ port q
    → is_readiness_probe q (port_probes (port q) s) ≡ true
    → status_of (middleware_func q (serve_times k q (set_probe_status r s).0)).1
      ≡ some (if ltb k (suc n) then pos (suc c) else pos 200)
unfolding is_readiness_probe
readiness_countdown r q s c n k cs e f g h =
    countdown q (set_probe_status r s).0 n k (rw set h)
      (ap (λ (pp : PortProbes). pp.readiness.remaining) set ∙ fields.0)
    ∙ ap (λ (x : ℤ). some (if ltb k (suc n) then x else pos 200))
        (ap (λ (pp : PortProbes). pp.readiness.status) set ∙ fields.1)
  where
    fields :
        ((assign_status (pos (suc c)) (pos (suc n)) (readiness_of q s)).remaining ≡ pos (suc n))
        × ((assign_status (pos (suc c)) (pos (suc n)) (readiness_of q s)).status ≡ pos (suc c))
    fields = ground arith

    set : port_probes (port q) (set_probe_status r s).0 ≡ record (port_probes (port q) s) {
      readiness = assign_status (pos (suc c)) (pos (suc n)) (readiness_of q s);
    }
    set = ground (
      arith,
      set_probe_status_sets r s (pos (suc c)) cs (port q) (λ i. cc) (rw f) (rw f),
      eq_refl (port q),
    )
