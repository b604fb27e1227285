-- ===== src/Tunnel/Leases.antt =====
-- The end of a lease in the loop of tspc-advanced/src/tsp/tsp_tun_mgt.c.
use gw6c.Base.{
  ℕ, ◌≤◌, ◌<◌, ◌≡◌, refl, ◌⊎◌, inl, inr, Bool, true, false, not, ◌==◌, List, [], ◌∷◌, ◌++◌, Option,
  some, none, All, if◌then◌else◌, arith, le→ltb, lt→ltb, and_false,
}
use gw6c.Session.Errors
use gw6c.Keepalive.{Keepalive}
use gw6c.Tunnel.Start.{Pass, check_exp, watch, code_of, management_loop}

-- A pass without a stop, before or after the end of the lease.
pub record Before (expiration : ℕ) (p : Pass) : Type 0 where
  pub goes_on : p.stop ≡ false
  pub early : p.now ≤ expiration

pub record After (expiration : ℕ) (p : Pass) : Type 0 where
  pub goes_on : p.stop ≡ false
  pub late : expiration < p.now

-- With the passes before the end of the lease, and with all of them: the first do not end the
-- loop, and then the lease does, or keepalive has given the other end up among them.
abbrev pub IsOver : Bool → (before all : Option ℕ) → Type 0
IsOver keepalive before all =
    ((before ≡ none) × (all ≡ some Errors.lease_expired))
    ⊎ ((keepalive ≡ true)
        × (before ≡ some Errors.keepalive_timeout)
        × (all ≡ some Errors.keepalive_timeout))

code_of-early :
    (expiration now : ℕ) (up : Bool)
    → now ≤ expiration
    → code_of expiration up now ≡ (if up then Errors.keepalive_timeout else Errors.no_error)
unfolding code_of check_exp
code_of-early expiration now up le =
    rw (le→ltb expiration now le, and_false (not (expiration == 0)))

code_of-late :
    (expiration now : ℕ) (up : Bool)
    → 0 < expiration
    → expiration < now
    → code_of expiration up now ≡ Errors.lease_expired
unfolding code_of check_exp
code_of-late expiration now up positive lt =
    let there : (expiration == 0) ≡ false = ground arith in rw (there, lt→ltb expiration now lt)

-- A pass before the end of the lease: keepalive decides.
abbrev kept : Bool → Option ℕ → Option ℕ
kept up r =
    if (if up then Errors.keepalive_timeout else Errors.no_error) == Errors.no_error
    then r
    else some (if up then Errors.keepalive_timeout else Errors.no_error)

next :
    (up : Bool) (before all : Option ℕ)
    → IsOver true before all
    → IsOver true (kept up before) (kept up all)
next true before all h = inr (refl, refl, refl)
next false before all h = h

-- A lease ends in the first pass that begins after it, and not in a pass before it, if no stop is
-- asked for: the passes before it do not end the loop and with this one it ends, with
-- LEASE_EXPIRED; or keepalive is on and has given the other end up in one of the passes before.
pub management_loop-IsOver :
    (keepalive : Bool) (expiration : ℕ) (ps rest : List Pass) (p : Pass) (k : Keepalive)
    → 0 < expiration
    → All (Before expiration) ps
    → After expiration p
    → IsOver keepalive
        (management_loop keepalive expiration ps k)
        (management_loop keepalive expiration (ps ++ (p ∷ rest)) k)
unfolding management_loop watch
management_loop-IsOver keepalive expiration [] rest p k positive before after =
    rw
      (
        after.goes_on,
        code_of-late expiration p.now (watch keepalive p.call k).0 positive after.late,
      )
      (inl (refl, refl))
management_loop-IsOver false expiration (q ∷ ps) rest p k positive before after =
    rw (before.0.goes_on, code_of-early expiration q.now false before.0.early)
      (management_loop-IsOver false expiration ps rest p k positive before.1 after)
management_loop-IsOver true expiration (q ∷ ps) rest p k positive before after =
    let (up, k') = watch true q.call k in
    rw (before.0.goes_on, code_of-early expiration q.now up before.0.early)
      (next up _ _ (management_loop-IsOver true expiration ps rest p k' positive before.1 after))
