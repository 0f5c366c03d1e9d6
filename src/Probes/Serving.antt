-- ===== src/Probes/Serving.antt =====
-- What the handlers of probes.go do to the probes that they name, and to those that they do not.
use goto.Prelude.{
  ◌≡◌, refl, arith, true, false, Option, none, some, if◌then◌else◌, ℤ, Text, text_eq, ◌==◌, eq_iff,
}
use goto.Prelude.Dict.{put, get-put}
use goto.Params.Mux.{Request}
use goto.Params.Port.{port}
use goto.Probes.{
  PortProbes, ProbesByPort, port_probes, get_port_probes, init_port_probes, Served, served, to_next,
  middleware_func, is_readiness_probe, is_liveness_probe, serve,
}

pub port_probes-put :
    (p q : Text) (pp : PortProbes) (s : ProbesByPort)
    → port_probes q (put p pp s) ≡ (if p == q then pp else port_probes q s)
unfolding port_probes
port_probes-put p q pp s = ground (arith, get-put p q pp s)

abbrev pub status_of : Served → Option ℤ
status_of (served t status count overflow) = some status
status_of to_next = none

-- Entering the probes that are there already, and then new ones.
pub port_probes-put_twice :
    (p q : Text) (pp : PortProbes) (s : ProbesByPort)
    → port_probes q (put p pp (put p (port_probes p s) s))
      ≡ (if p == q then pp else port_probes q s)
port_probes-put_twice p q pp s = ground (
  arith,
  port_probes-put p q pp (put p (port_probes p s) s),
  port_probes-put p q (port_probes p s) s,
)

pub port_probes-put_self :
    (p q : Text) (s : ProbesByPort) → port_probes q (put p (port_probes p s) s) ≡ port_probes q s
port_probes-put_self p q s = ground (arith, port_probes-put p q (port_probes p s) s, eq_iff p q)

-- The probes of every port after a call of the readiness URI: this port's readiness probe has counted
-- the call, its liveness probe and the other ports' probes are as they were. The call is answered
-- with the status that was set.
pub middleware-readiness :
    (r : Request) (s : ProbesByPort) (q : Text)
    → is_readiness_probe r (port_probes (port r) s) ≡ true
    → (port_probes q (middleware_func r s).0 ≡ (
        if port r == q
        then record (port_probes q s) { readiness = serve (port_probes q s).readiness }
        else port_probes q s))
      × (status_of (middleware_func r s).1 ≡ some (port_probes (port r) s).readiness.status)
unfolding middleware_func init_port_probes get_port_probes
middleware-readiness r s q h = rw h (
    ground (
      arith,
      eq_iff (port r) q,
      port_probes-put_twice (port r) q
          (record (port_probes (port r) s) { readiness = serve (port_probes (port r) s).readiness })
          s,
    ))

pub middleware-next :
    (r : Request) (s : ProbesByPort) (q : Text)
    → is_readiness_probe r (port_probes (port r) s) ≡ false
    → is_liveness_probe r (port_probes (port r) s) ≡ false
    → (port_probes q (middleware_func r s).0 ≡ port_probes q s)
      × (status_of (middleware_func r s).1 ≡ none)
unfolding middleware_func init_port_probes get_port_probes
middleware-next r s q h k = rw (h, k) (port_probes-put_self (port r) q s, refl)
