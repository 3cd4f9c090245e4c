-- ===== src/Sync/Server/Spent.antt =====
-- The codes that an attempt to pair leaves, and whether it is let in: crates/vault-sync/src/server.rs.
use ubod.Base.{
  ℕ, ◌≤◌, ◌<◌, String, Bool, true, false, not, ◌==◌, string_eq, List, [], ◌∷◌, ◌≡◌, ◌≢◌, ◌∙◌, sym,
  arith, length, ltb, Bool-cases, inl, inr,
}
use ubod.Base.Search.{length-keep-le}
use ubod.Sync.{PairingCode}
use ubod.Sync.Pairing.{live, others}

-- The codes after an attempt with one of them: that code and those whose time is over are out, the
-- others are there in their order.
pub data Left (now : ℕ) (code : String) : List PairingCode → List PairingCode → Type 0 where
  empty : Left now code [] []
  stays :
      (p : PairingCode) (ps qs : List PairingCode)
      → now < p.expires_at
      → p.code ≢ code
      → Left now code ps qs
      → Left now code (p ∷ ps) (p ∷ qs)
  expired :
      (p : PairingCode) (ps qs : List PairingCode)
      → p.expires_at ≤ now
      → Left now code ps qs
      → Left now code (p ∷ ps) qs
  used :
      (p : PairingCode) (ps qs : List PairingCode)
      → p.code ≡ code
      → Left now code ps qs
      → Left now code (p ∷ ps) qs

-- The code is there, and its time is not over.
pub data Offers (now : ℕ) (code : String) : List PairingCode → Type 0 where
  first :
      (p : PairingCode) (ps : List PairingCode)
      → p.code ≡ code
      → now < p.expires_at
      → Offers now code (p ∷ ps)
  later : (p : PairingCode) (ps : List PairingCode) → Offers now code ps → Offers now code (p ∷ ps)

same_code : (x y : String) → (x == y) ≡ true → x ≡ y
same_code x y h = (string_eq.equal_iff x y).0 h

other_code : (x y : String) → (x == y) ≡ false → x ≢ y
other_code x y h e = ground (arith, h, (string_eq.equal_iff x y).1 e)

module _ (now : ℕ) (code : String) where
  pub Left-consume : (ps : List PairingCode) → Left now code ps (others code (live now ps))
  Left-consume [] = empty
  Left-consume (p ∷ ps) = elim (Bool-cases (ltb now p.expires_at)) [
    | inr over ↦ rw over (expired p ps _ (ground (arith, over)) (Left-consume ps))
    | inl alive ↦ rw alive (elim (Bool-cases (p.code == code)) [
      | inl same ↦ rw same (used p ps _ (same_code p.code code same) (Left-consume ps))
      | inr other ↦
          rw other
            (stays p ps _ (ground (arith, alive)) (other_code p.code code other) (Left-consume ps))
    ])
  ]

  abbrev pub is_offered : List PairingCode → Bool
  is_offered ps = ltb (length (others code (live now ps))) (length (live now ps))

  shorter : (ps : List PairingCode) → length (others code ps) ≤ length ps
  shorter = length-keep-le (λ p. not (p.code == code))

  offered_later :
      (p : PairingCode) (ps : List PairingCode)
      → ltb now p.expires_at ≡ true
      → (p.code == code) ≡ false
      → is_offered (p ∷ ps) ≡ is_offered ps
  offered_later p ps alive other = rw (alive, other) (ground arith)

  offered_here :
      (p : PairingCode) (ps : List PairingCode)
      → ltb now p.expires_at ≡ true
      → (p.code == code) ≡ true
      → is_offered (p ∷ ps) ≡ true
  offered_here p ps alive same = rw (alive, same) (ground (arith, shorter (live now ps)))

  pub offered : (ps : List PairingCode) → is_offered ps ≡ true → Offers now code ps
  offered [] h = absurd (ground (arith, h))
  offered (p ∷ ps) h = elim (Bool-cases (ltb now p.expires_at)) [
    | inr over ↦ later p ps (offered ps (rw over at h))
    | inl alive ↦ elim (Bool-cases (p.code == code)) [
      | inl same ↦ first p ps (same_code p.code code same) (ground (arith, alive))
      | inr other ↦ later p ps (offered ps (sym (offered_later p ps alive other) ∙ h))
    ]
  ]

  pub Offers-is_offered : (ps : List PairingCode) → Offers now code ps → is_offered ps ≡ true
  Offers-is_offered _ (first p ps same alive) =
      offered_here p ps (ground (arith, alive)) ((string_eq.equal_iff p.code code).1 same)
  Offers-is_offered _ (later p ps h) = elim (Bool-cases (ltb now p.expires_at)) [
    | inr over ↦ rw over (Offers-is_offered ps h)
    | inl alive ↦ elim (Bool-cases (p.code == code)) [
      | inl same ↦ offered_here p ps alive same
      | inr other ↦ offered_later p ps alive other ∙ Offers-is_offered ps h
    ]
  ]
