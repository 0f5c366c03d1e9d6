-- ===== src/Status/Manager/Apply.antt =====
-- What applying a parsed config makes of it (statusManager.go, ApplyStatusConfig).
use goto.Prelude.{
  zero, suc, ◌≡◌, refl, arith, true, ◌⊎◌, inl, inr, List, [], ◌∷◌, ◌++◌, map, all, All,
  if◌then◌else◌, ℤ, pos, negsuc, leb_ℤ, ◌==◌, int_eq, eq_iff, ◌<ℤ◌, ◌≢◌,
}
use goto.Prelude.Dict.{put, get-put}
use goto.Params.Regexp.{RegexpLib}
use goto.Status.Config.{StatusConfig}
use goto.Status.Manager.{StatusManager, configs}
use goto.Status.Manager.Payload.{
  StatusPayload, apply_status_config, accepted, applied, append_config, zero_is_ok,
}

pub configs-put :
    (p q : ℤ) (l : List StatusConfig) (m : StatusManager)
    → configs q (put p l m) ≡ (if p == q then l else configs q m)
unfolding configs
configs-put p q l m = ground (arith, get-put p q l m)

-- A config that forces a status: it has positive statuses only, and is good for ever or some times.
pub record IsActive (sc : StatusConfig) : Type 0 where
  pub some_status : sc.statuses ≢ []
  pub positive : All (λ s. pos 0 <ℤ s) sc.statuses
  pub times : (sc.times ≡ negsuc 0) ⊎ (pos 0 <ℤ sc.times)

filled-positive :
    (l : List ℤ) → all (λ s. leb_ℤ (pos 0) s) l ≡ true → All (λ s. pos 0 <ℤ s) (map zero_is_ok l)
filled-positive [] h = tt
filled-positive (pos n ∷ l) h = (ground arith, filled-positive l (ground arith))
filled-positive (negsuc n ∷ l) h = ground arith

map-ne-nil : (l : List ℤ) → l ≢ [] → map zero_is_ok l ≢ []
map-ne-nil [] n e = n refl
map-ne-nil (c ∷ l) n e = cc

filled-times :
    (times : ℤ)
    → leb_ℤ (negsuc 0) times ≡ true
    → let t = if times == pos 0 then negsuc 0 else times in (t ≡ negsuc 0) ⊎ (pos 0 <ℤ t)
filled-times (pos zero) h = inl refl
filled-times (pos (suc n)) h = inr (ground arith)
filled-times (negsuc n) h = inl (ground arith)

module _ (re : RegexpLib) where
  apply_status_config_inv :
      (port : ℤ) (sc : StatusPayload) (m m' : StatusManager)
      → apply_status_config re port sc m ≡ accepted m'
      → (sc.statuses ≢ [])
        × (all (λ s. leb_ℤ (pos 0) s) sc.statuses ≡ true)
        × (leb_ℤ (negsuc 0) sc.times ≡ true)
        × (append_config (applied port sc) m ≡ m')
  unfolding apply_status_config
  apply_status_config_inv port sc m m' h = ground arith

  applied-IsActive :
      (port : ℤ) (sc : StatusPayload)
      → sc.statuses ≢ []
      → all (λ s. leb_ℤ (pos 0) s) sc.statuses ≡ true
      → leb_ℤ (negsuc 0) sc.times ≡ true
      → IsActive (applied port sc)
  applied-IsActive port sc some' h k = record {
    some_status = map-ne-nil sc.statuses some';
    positive = filled-positive sc.statuses h;
    times = filled-times sc.times k;
  }

  -- An accepted config is put behind the others of its own port, or of the request's port if it names
  -- none, and the other ports keep theirs. It is active: no status is left at 0 and no count at 0.
  pub apply_status_config_lem :
      (port q : ℤ) (sc : StatusPayload) (m m' : StatusManager)
      → apply_status_config re port sc m ≡ accepted m'
      → IsActive (applied port sc)
        × (configs q m' ≡ (
            if (if leb_ℤ sc.port (pos 0) then port else sc.port) == q
            then configs q m ++ applied port sc ∷ []
            else configs q m))
  apply_status_config_lem port q sc m m' h =
      let (some', positive, times, e) = apply_status_config_inv port sc m m' h in
      (
        applied-IsActive port sc some' positive times,
        ground (
          arith,
          e,
          configs-put (applied port sc).port q
              (configs (applied port sc).port m ++ applied port sc ∷ []) m,
          eq_iff (applied port sc).port q,
        ),
      )
