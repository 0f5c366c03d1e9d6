-- ===== src/Probes/Setting.antt =====
-- The configuration handlers of probes.go, and calls of the probe URI that follow them.
use goto.Prelude.{
  ◌≡◌, ◌≢◌, refl, arith, true, List, [], ◌∷◌, if◌then◌else◌, ℤ, Text, codes, text_eq, ◌==◌, eq_iff,
}
use goto.Params.Mux.{Request, StatusParam, get_status_param, get_string_param_value}
use goto.Params.Port.{port}
use goto.Probes.{
  ProbeType, readiness, liveness, invalid, PortProbes, with_probes, ProbesByPort, port_probes,
  get_port_probes, init_port_probes, done, bad_request, panicked, probe_type, set_probe_status,
  set_probe, set_status, assign_status, update,
}
use goto.Probes.Serving.{port_probes-put_twice}

with_probes_lem :
    (r : Request) (f : PortProbes → PortProbes) (s : ProbesByPort) (q : Text)
    → (port_probes q (with_probes r f s).0
        ≡ (if port r == q then f (port_probes q s) else port_probes q s))
      × ((with_probes r f s).1 ≡ done)
unfolding init_port_probes get_port_probes
with_probes_lem r f s q = (
  ground
      (arith, eq_iff (port r) q, port_probes-put_twice (port r) q (f (port_probes (port r) s)) s),
  refl,
)

abbrev pub named_type : Request → ProbeType
named_type r = probe_type (get_string_param_value r (codes "type"))

-- The status and the times of the named probe of this port are set, those of the other probe and of
-- the other ports stay.
pub set_probe_status_sets :
    (r : Request) (s : ProbesByPort) (c : ℤ) (cs : List ℤ) (q : Text)
    → named_type r ≢ invalid
    → (get_status_param r).present ≡ true
    → (get_status_param r).statuses ≡ c ∷ cs
    → (port_probes q (set_probe_status r s).0 ≡ (
        if port r == q
        then update (named_type r) (assign_status c (get_status_param r).times) (port_probes q s)
        else port_probes q s))
      × ((set_probe_status r s).1 ≡ done)
set_probe_status_sets r s c cs q valid h k =
    go (named_type r) (get_status_param r) valid h k (unfold set_probe_status in refl)
  where
    go :
        (t : ProbeType) (p : StatusParam)
        → t ≢ invalid
        → p.present ≡ true
        → p.statuses ≡ c ∷ cs
        → set_probe_status r s ≡ set_status r t p s
        → (port_probes q (set_probe_status r s).0 ≡ (
            if port r == q
            then update t (assign_status c p.times) (port_probes q s)
            else port_probes q s))
          × ((set_probe_status r s).1 ≡ done)
    go readiness p v h k e =
        rw (e, h, k) (with_probes_lem r (update readiness (assign_status c p.times)) s q)
    go liveness p v h k e =
        rw (e, h, k) (with_probes_lem r (update liveness (assign_status c p.times)) s q)
    go invalid p v h k e = absurd (v refl)

-- A named probe and a status with no number in it, as in /probes/readiness/set/status=up: the
-- handler panics.
pub set_probe_status_panics :
    (r : Request) (s : ProbesByPort)
    → named_type r ≢ invalid
    → (get_status_param r).present ≡ true
    → (get_status_param r).statuses ≡ []
    → (set_probe_status r s).1 ≡ panicked
unfolding set_probe_status
set_probe_status_panics r s valid h k = ground arith

-- A request that names no type of probe is refused by both handlers, and changes nothing.
pub set_probe_refused :
    (r : Request) (s : ProbesByPort)
    → named_type r ≡ invalid
    → (set_probe r s ≡ (s, bad_request)) × (set_probe_status r s ≡ (s, bad_request))
unfolding set_probe set_probe_status
set_probe_refused r s e = rw e (refl, refl)
