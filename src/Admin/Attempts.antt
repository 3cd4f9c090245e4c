-- ===== src/Admin/Attempts.antt =====
-- Wrong PINs in a row, whatever asks for them: crates/vault-admin/src/lib.rs.
use ubod.Base.{
  ℕ, ◌+◌, ◌-◌, ◌%◌, ◌<◌, String, Bool, true, false, ◌&&◌, ltb, Option, some, List, [], ◌∷◌, ◌≡◌,
  refl, ap, arith, ◌∙◌, all, length,
}
use ubod.Base.Exec.{err}
use ubod.Base.Foreign.{Foreign}
use ubod.Index.Rules.{Ruleset}
use ubod.Admin.{AdminService, LockoutState, locked_out}
use ubod.Admin.Destruction.{destroy}
use ubod.Admin.Lockout.{at_time, locked_refuses}
use ubod.Admin.Pins.{failed_once, next_lockout, login}
use ubod.Admin.Sealing.{Outside}
use ubod.Admin.Service.{AdminRequest, administer}
use ubod.Admin.Counted.{is_open, gives_wrong, administer-Counted}

module _ ⦃f : Foreign⦄ where
  -- Requests, each at its time.
  abbrev pub attempts :
      (ℕ → ℕ) → Outside → Ruleset → List (ℕ × AdminRequest) → AdminService → AdminService
  attempts noise out rules [] s = s
  attempts noise out rules ((now, r) ∷ rs) s =
      attempts noise out rules rs (administer noise out rules r (at_time now s)).1

  -- A wrong PIN at a time when no lock is on.
  abbrev pub counts : String → Option ℕ → ℕ × AdminRequest → Bool
  counts hash until (now, r) = is_open now until && gives_wrong hash r

mod_small : (n : ℕ) → n < 4 → n % 4294967296 ≡ n
mod_small n h = omega (arith, h)

not_above : (n : ℕ) → n < 4 → ltb 3 n ≡ false
not_above n h = ground (arith, h)

few_more :
    (now : ℕ) (l : LockoutState)
    → l.failures < 3
    → failed_once now l ≡ record l { failures = l.failures + 1 }
unfolding failed_once
few_more now l h =
    rw
      (mod_small (l.failures + 1) (omega (arith, h)), not_above (l.failures + 1) (omega (arith, h)))
      refl

fourth :
    (now : ℕ) (l : LockoutState)
    → l.failures ≡ 3
    → failed_once now l ≡ record { failures = 4; locked_until = some (now + 10) }
unfolding failed_once next_lockout
fourth now l h = rw h refl

module _ ⦃f : Foreign⦄ (noise : ℕ → ℕ) (out : Outside) (rules : Ruleset) (hash : String) where
  -- Up to three wrong PINs are counted, and set no lock.
  attempts-few :
      (rs : List (ℕ × AdminRequest)) (s : AdminService)
      → s.vault.db.state.admin_pin_hash ≡ some hash
      → s.pin_lockout.failures + length rs ≡ 3
      → all (counts hash s.pin_lockout.locked_until) rs ≡ true
      → ((attempts noise out rules rs s).pin_lockout
          ≡ record { failures = 3; locked_until = s.pin_lockout.locked_until })
        × ((attempts noise out rules rs s).vault.db.state.admin_pin_hash ≡ some hash)
  attempts-few [] s set three h =
      (ap (λ n. record s.pin_lockout { failures = n }) (omega (arith, three)), set)
  attempts-few ((now, r) ∷ rs) s set three h =
      let s' = (administer noise out rules r (at_time now s)).1 in
      let c = administer-Counted noise out rules hash r (at_time now s) set (ground (arith, h)) in
      let e : s'.pin_lockout ≡ record {
        failures = s.pin_lockout.failures + 1;
        locked_until = s.pin_lockout.locked_until;
      } =
        c.0 ∙ few_more now s.pin_lockout (omega (arith, three)) in
      let same = ap (λ (l : LockoutState). l.locked_until) e in
      let more = ap (λ (l : LockoutState). l.failures) e in
      let rest =
        attempts-few rs s' c.1 (omega (arith, three, more))
          (ap (λ u. all (counts hash u) rs) same ∙ ground (arith, h)) in
      (rest.0 ∙ ap (λ u. record { failures = 3; locked_until = u }) same, rest.1)

  -- The fourth wrong PIN in a row closes the door. Wrong PINs are given to logins, destructions or changes
  -- of the PIN, each at its time, all at times when no lock is on, and bring the count of failures to three; one
  -- more comes at the time `now`. Then four are counted and the lock is set; and until ten seconds after
  -- `now` every login and every destruction is refused, with the right PIN or a wrong one, and
  -- changes nothing. The login may fail to write its entry of the audit chain: the count is the same.
  pub fourth_failure_locks :
      (before : List (ℕ × AdminRequest)) (now : ℕ) (last : AdminRequest) (s : AdminService)
      → s.vault.db.state.admin_pin_hash ≡ some hash
      → s.pin_lockout.failures + length before ≡ 3
      → all (counts hash s.pin_lockout.locked_until) before ≡ true
      → counts hash s.pin_lockout.locked_until (now, last) ≡ true
      → (s' : AdminService) × (s'
          ≡ (administer noise out rules last (at_time now (attempts noise out rules before s))).1)
        × (s'.pin_lockout ≡ record { failures = 4; locked_until = some (now + 10) })
        × ((t : ℕ) (token pin id second why actor : String)
            → t < now + 10
            → (login token pin (at_time t s') ≡ (err (locked_out (now + 10 - t + 1)), at_time t s'))
              × (destroy noise id pin second why actor (at_time t s')
                  ≡ (err (locked_out (now + 10 - t + 1)), at_time t s')))
  fourth_failure_locks before now last s set three h wrong =
      let few = attempts-few before s set three h in
      let s3 = attempts noise out rules before s in
      let s' = (administer noise out rules last (at_time now s3)).1 in
      let same = ap (λ (l : LockoutState). l.locked_until) few.0 in
      let c =
        administer-Counted noise out rules hash last (at_time now s3) few.1
          (ap (λ u. counts hash u (now, last)) same ∙ wrong) in
      let e = c.0 ∙ fourth now s3.pin_lockout (ap (λ (l : LockoutState). l.failures) few.0) in
      (
        s',
        refl,
        e,
        λ t token pin id second why actor soon.
            locked_refuses noise (at_time t s') (now + 10) hash c.1
              (ap (λ (l : LockoutState). l.locked_until) e) soon token pin id second why actor,
      )
